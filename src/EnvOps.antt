-- ===== src/EnvOps.antt =====
-- service/envsvc.go and service/nodesvc.go: commands on instances, and the status that each reports.
pub mod Errors
pub mod Scripts
pub mod Verdict
pub mod Jobs
pub mod Deploy
pub mod Reported
pub mod Apart
