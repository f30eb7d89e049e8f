-- ===== src/Tests.antt =====
-- Runs of the models on inputs of the repository's tests, and the theorems at concrete inputs.
mod Policies
pub mod Contracts
mod Keys
mod Setup
mod Db
mod Ledger
pub mod Authority
mod Accounts
pub mod Engine
pub mod Files
mod Download
mod Encrypted
pub mod KeyTable
