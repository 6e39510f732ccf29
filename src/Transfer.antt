-- ===== src/Transfer.antt =====
-- molit-dataspace/src/transfer-runtime: the provider's transfer provisioning worker.
pub mod Data
pub mod Journal
pub mod Exec
pub mod Keeps
pub mod Worker
mod Tests
