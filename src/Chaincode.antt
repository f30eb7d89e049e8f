-- ===== src/Chaincode.antt =====
-- chaincode/contract.go: the smart contract that keeps the global parameters and the ciphertexts.
pub mod Stub
pub mod Contract
pub mod Laws
pub mod Kept
pub mod Params
pub mod Samples
pub mod Codec
pub mod ParamsCodec
pub mod Refinement
pub mod Frame
pub mod Listing
