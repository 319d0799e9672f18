-- ===== src/Repo.antt =====
-- repository: the queries and updates of each table.
pub mod Tasks
pub mod Instances
pub mod Upsert
pub mod Templates
pub mod Services
pub mod Deleted
pub mod Related
pub mod Founded
pub mod Expands
pub mod Listed
pub mod Grouped
