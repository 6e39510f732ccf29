-- ===== src/Bridge.antt =====
-- molit-dataspace/src/bridge-runtime: the bridge between the catalogue and the EDC.
pub mod Queue
pub mod Address
mod Tests
