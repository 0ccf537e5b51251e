-- ===== src/Tests.antt =====
-- The definitions run on concrete inputs, and the theorems applied to them.
mod Toy
mod Reflect
mod ResponseCode
mod Bits
mod Session
mod Run
mod Encoding
mod Framing
mod Execute
mod Kdf
mod Policy
mod Union
mod Opened
mod Legacy
mod Nv
