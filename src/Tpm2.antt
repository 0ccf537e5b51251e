-- ===== src/Tpm2.antt =====
-- The package tpm2.
pub mod Fault
pub mod Bitfield
pub mod Reflect
pub mod Union
pub mod Constants
pub mod Structures
pub mod ResponseCode
pub mod Session
pub mod Pcrs
pub mod Execute
pub mod Policy
pub mod Names
pub mod Kdf
pub mod Command
pub mod Commands
pub mod Audit
