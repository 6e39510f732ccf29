-- ===== src/Caas.antt =====
-- molit-dataspace/src/caas: the control plane of the tenants' connectors.
pub mod Data
pub mod Store
pub mod Tenant
pub mod Lifecycle
pub mod Observe
pub mod Reconcile
pub mod Secrets
pub mod Register
mod Tests
