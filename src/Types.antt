-- ===== src/Types.antt =====
-- The values that the services exchange and the rows that they store: api/types,
-- repository/model/db and pkg/nodeact/types.go.
mod Status
mod Rows
pub use Status.*
pub use Rows.*
