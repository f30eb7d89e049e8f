-- ===== src/Policy.antt =====
-- abe/policy.go: access policies as texts.
pub mod Scan
pub mod Clause
pub mod Rewrite
pub mod Flatten
pub mod Precedence
pub mod Normalize
pub mod Leaves
pub mod Keys
pub mod Lengths
pub mod Steps
pub mod GroupSteps
pub mod Run
pub mod Rejoin
pub mod Plain
pub mod Meaning
pub mod LostBrackets
pub mod FirstGroup
pub mod Compare
pub mod KeyLaws
pub mod Wrapped
pub mod Missing
