-- ===== src/Msp.antt =====
-- utils/msp: the keys and certificates of Fabric's identities.
pub mod PrivateKey
