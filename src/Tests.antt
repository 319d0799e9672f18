-- ===== src/Tests.antt =====
-- A small installation, and the properties applied to it.
pub mod Json
pub mod Site
pub mod Runs
pub mod Templates
mod Queries
