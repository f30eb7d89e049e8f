-- ===== src/Files.antt =====
-- user_client/service/file_service.go: files that are encrypted, kept on the ledger and read again.
pub mod Content
pub mod Path
pub mod Assets
pub mod PathLaws
pub mod Inside
pub mod Upload
pub mod Ownership
pub mod Updated
pub mod Encrypted
pub mod Download
pub mod Opened
pub mod Downloaded
pub mod Returned
