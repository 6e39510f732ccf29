-- ===== src/Identity.antt =====
-- molit-dataspace/src/identity: tokens, certificates and claims.
pub mod StrictJson
mod Tests
