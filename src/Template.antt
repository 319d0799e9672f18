-- ===== src/Template.antt =====
-- service/templatesvc.go with the `Create…Instr` functions of service/instrsvc.go: templates and their
-- instructions, written in a transaction.
pub mod Request
pub mod Tables
pub mod Instructions
pub mod Steps
pub mod Create
pub mod Update
pub mod Info
pub mod Spec
pub mod Added
pub mod Rows
pub mod Filled
pub mod Opened
pub mod Looped
pub mod Paired
pub mod Deployed
pub mod Halfway
pub mod Shown
pub mod Scheduled
pub mod Replaced
