-- ===== src/Tpmutil.antt =====
-- The package tpmutil.
pub mod Encoding
pub mod Run
pub mod Command
