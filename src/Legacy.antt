-- ===== src/Legacy.antt =====
-- The package legacy/tpm2.
pub mod ResponseCode
pub mod Wire
pub mod Algorithm
pub mod Scheme
pub mod Public
pub mod Template
pub mod Name
pub mod Selection
pub mod Signature
pub mod Attest
pub mod Tpm
pub mod Nv
