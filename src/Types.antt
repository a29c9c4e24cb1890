-- ===== src/Types.antt =====
-- crates/decentgpu-common/src/types.rs: the enums that the database and the API spell as words, the
-- capabilities of a worker, and the pricing constants.
pub mod UserRole
pub mod GpuBackend
pub mod JobStatus
pub mod TxType
pub mod Capabilities
pub mod Words
mod Tests
