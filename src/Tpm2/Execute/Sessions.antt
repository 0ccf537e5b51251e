-- ===== src/Tpm2/Execute/Sessions.antt =====
-- The interface Session of tpm2/sessions.go, and the wire form of what a session makes and checks.
use go_tpm.Base.{ℕ, Bool, List, Option, ◌==◌, get_or}
use go_tpm.Tpm2.Reflect.Types.{El, BitStruct}
use go_tpm.Tpm2.Structures.Auth.{tpms_auth_command, tpms_auth_response}
use go_tpm.Tpm2.Session.Attributes.{Attributes}
use go_tpm.Tpm2.Session.Attributes.Bits.{as_bits}
use go_tpm.Tpm2.Session.Password.{AuthCommand, AuthResponse}
use go_tpm.Tpm2.Execute.Step.{Step}

-- A session is a reference to an object of the state `W`, so that two uses of one object see each
-- other's changes.
pub record Sessions (W : Type 0) : Type 1 where
  pub Session : Type 0
  -- `PasswordAuth(nil)`
  pub password_auth : Session
  pub init : Session → Step W (Unit {0})
  pub cleanup_failure : Session → Step W (Unit {0})
  pub new_nonce_caller : Session → Step W (Unit {0})
  -- the buffer of `NonceTPM`, which may be nil
  pub nonce_tpm : W → Session → Option (List ℕ)
  pub is_encryption : W → Session → Bool
  pub is_decryption : W → Session → Bool
  pub authorize :
      Session
      → (cc : ℕ) (parms add_nonces : List ℕ) (names : List (List ℕ)) (auth_index : ℕ)
      → Step W AuthCommand
  pub validate :
      Session
      → (rc cc : ℕ) (parms : List ℕ) (names : List (List ℕ)) (auth_index : ℕ) → AuthResponse
      → Step W (Unit {0})
  -- both change the parameter in place
  pub encrypt : Session → List ℕ → Step W (List ℕ)
  pub decrypt : Session → List ℕ → Step W (List ℕ)

-- The TPMSAuthCommand as package reflect shows it.
abbrev pub auth_value : AuthCommand → El tpms_auth_command
auth_value a = (a.handle, ((a.nonce, tt), (as_bits a.attributes, ((a.authorization, tt), tt))))

abbrev pub from_bits : BitStruct → Attributes
from_bits b = record {
  continue_session = get_or b.fields 0 0 == 1;
  audit_exclusive = get_or b.fields 1 0 == 1;
  audit_reset = get_or b.fields 2 0 == 1;
  decrypt = get_or b.fields 3 0 == 1;
  encrypt = get_or b.fields 4 0 == 1;
  audit = get_or b.fields 5 0 == 1;
  reserved = b.reserved;
}

-- The TPMSAuthResponse that has been unmarshalled.
abbrev pub auth_response : El tpms_auth_response → AuthResponse
auth_response ((nonce, end₀), (attrs, ((auth, end₁), end₂))) = record {
  nonce = nonce;
  attributes = from_bits attrs;
  authorization = auth;
}
