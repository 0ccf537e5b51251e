-- ===== src/Tpm2/Session/Attributes.antt =====
-- TPMASession, and attrsToBytes of tpm2/sessions.go.
pub mod Bits
use go_tpm.Base.{ℕ, Bool, false, List, [], ◌∷◌, bit_or, if◌then◌else◌}

-- TPMASession; `reserved` is its embedded bitfield8.
pub record Attributes : Type 0 where
  pub continue_session : Bool
  pub audit_exclusive : Bool
  pub audit_reset : Bool
  pub decrypt : Bool
  pub encrypt : Bool
  pub audit : Bool
  pub reserved : ℕ

abbrev pub no_attributes : Attributes
no_attributes = record {
  continue_session = false;
  audit_exclusive = false;
  audit_reset = false;
  decrypt = false;
  encrypt = false;
  audit = false;
  reserved = 0;
}

-- `if b { res |= mask }`
abbrev pub set_if : Bool → ℕ → ℕ → ℕ
set_if b mask res = if b then bit_or res mask else res

abbrev pub attrs_to_bytes : Attributes → List ℕ
attrs_to_bytes attrs =
    let r₀ = set_if attrs.continue_session 1 0 in
    let r₁ = set_if attrs.audit_exclusive 2 r₀ in
    let r₂ = set_if attrs.audit_reset 4 r₁ in
    let r₅ = set_if attrs.decrypt 32 r₂ in
    let r₆ = set_if attrs.encrypt 64 r₅ in set_if attrs.audit 128 r₆ ∷ []
