-- ===== src/Profile.antt =====
-- molit-dataspace/src/profile: the metadata profiles.
pub mod Accept
pub mod Negotiation
pub mod Xsd
mod Tests
