-- ===== src/Tpm2/ResponseCode/Tables.antt =====
-- tpm2/errors.go: the tables of names and descriptions.
pub mod Fmt0
pub mod Fmt1
pub mod Warnings
