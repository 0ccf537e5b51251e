-- ===== src/Tpm2/Reflect.antt =====
-- tpm2/reflect.go: marshalling and unmarshalling by reflection.
pub mod Types
pub mod Selectors
pub mod Bitwise
pub mod Marshal
pub mod Unmarshal
pub mod Valid
pub mod RoundTrip
pub mod Limits
