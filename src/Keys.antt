-- ===== src/Keys.antt =====
-- user_client/service: the attributes of users and the keys that are asked for them.
pub mod Result
pub mod Account
pub mod Format
pub mod Parse
pub mod Numeric
pub mod Labels
pub mod Issue
pub mod SameCheck
pub mod OwnAuthority
pub mod LabelLaws
pub mod Registered
pub mod Accounts
pub mod Table
pub mod Versions
pub mod Issuing
pub mod Handshake
pub mod Merge
pub mod Listed
pub mod Ensure
pub mod Ensured
pub mod Samples
