-- ===== src/Tpm2/Session.antt =====
-- tpm2/sessions.go: password, HMAC and policy sessions. The cryptography of the Go library, random
-- numbers and the transport are parameters.
pub mod Crypto
pub mod Attributes
pub mod Key
pub mod Hashes
pub mod Password
pub mod Hmac
pub mod Policy
pub mod Options
pub mod Salt
pub mod Derive
pub mod Open
pub mod Objects
