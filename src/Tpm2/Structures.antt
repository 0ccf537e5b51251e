-- ===== src/Tpm2/Structures.antt =====
-- tpm2/structures.go: the structures of the TPM 2.0 specification, as package reflect shows them.
pub mod Tags
pub mod Attributes
pub mod Basic
pub mod Lists
pub mod Capability
pub mod Attest
pub mod Auth
pub mod Symmetric
pub mod Scheme
pub mod Asymmetric
pub mod Signature
pub mod Public
pub mod Sensitive
pub mod Nv
