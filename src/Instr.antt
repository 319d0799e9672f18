-- ===== src/Instr.antt =====
-- service/instrsvc.go: `InstrSvc`, which runs one instruction and keeps its record.
mod Request
pub mod Expand
pub mod Shrink
pub mod Node
pub mod Deploy
pub mod Exec
pub mod Record
unfoldable pub use Request.*
