-- ===== src/Authority.antt =====
-- auth_admin/main.go: the server of an organisation that issues keys, with the engine of
-- abe/engine.go that it issues them by.
pub mod Engine
pub mod Verify
pub mod Server
pub mod Setup
pub mod Sync
pub mod Initialized
pub mod Accepts
pub mod Decrypting
pub mod SameGroup
pub mod Encrypting
pub mod EncryptErrors
pub mod Decrypt
pub mod DecryptLaws
