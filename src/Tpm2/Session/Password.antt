-- ===== src/Tpm2/Session/Password.antt =====
-- pwSession of tpm2/sessions.go.
pub mod Responses
use go_tpm.Base.{ℕ, Bool, true, false, not, ◌&&◌, List, [], ◌==◌, if◌then◌else◌, length}
use go_tpm.Base.Outcome.{ok, err}
use go_tpm.Tpm2.Fault.{Res, unexpected_nonce, unexpected_attributes, unexpected_hmac}
use go_tpm.Tpm2.Session.Attributes.{Attributes, no_attributes}

abbrev pub rs_pw : ℕ
rs_pw = 0x40000009

abbrev pub rh_null : ℕ
rh_null = 0x40000007

-- TPMSAuthCommand and TPMSAuthResponse; a TPM2B is its buffer.
pub record AuthCommand : Type 0 where
  pub handle : ℕ
  pub nonce : List ℕ
  pub attributes : Attributes
  pub authorization : List ℕ

pub record AuthResponse : Type 0 where
  pub nonce : List ℕ
  pub attributes : Attributes
  pub authorization : List ℕ

abbrev pub same_bool : Bool → Bool → Bool
same_bool true b = b
same_bool false b = not b

-- `==` of structs
abbrev pub same_attributes : Attributes → Attributes → Bool
same_attributes a b =
    same_bool a.continue_session b.continue_session
    && same_bool a.audit_exclusive b.audit_exclusive
    && same_bool a.audit_reset b.audit_reset
    && same_bool a.decrypt b.decrypt
    && same_bool a.encrypt b.encrypt
    && same_bool a.audit b.audit
    && (a.reserved == b.reserved)

-- `expectedAttrs`
abbrev pub only_continue : Attributes
only_continue = record {
  continue_session = true;
  audit_exclusive = false;
  audit_reset = false;
  decrypt = false;
  encrypt = false;
  audit = false;
  reserved = 0;
}

-- `pwSession.Authorize`, and `pwSession.Validate` of what it uses.
unfoldable pub authorize_pw : List ℕ → AuthCommand
authorize_pw auth = record {
  handle = rs_pw;
  nonce = [];
  attributes = no_attributes;
  authorization = auth;
}

unfoldable pub validate_pw : AuthResponse → Res (Unit {0})
validate_pw auth =
    if not (length auth.nonce == 0)
    then err unexpected_nonce
    else if not (same_attributes auth.attributes only_continue)
    then err unexpected_attributes
    else if not (length auth.authorization == 0)
    then err unexpected_hmac
    else ok tt
