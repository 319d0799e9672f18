-- ===== src/Schedule.antt =====
-- service/schedulesvc.go: `ScheduleSvc`, which starts a task for a template and runs the
-- instructions of the template in the background.
pub mod Run
pub mod Start
pub mod SameTask
pub mod Keys
pub mod Order
pub mod Final
pub mod Launched
pub mod Begun
