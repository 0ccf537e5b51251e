-- ===== src/Tpm2/Reflect/RoundTrip.antt =====
-- What is marshalled is unmarshalled again.
pub mod Parts
pub mod Fields
mod Names
mod Steps
mod Values
pub use Parts.{read_num-put_be}
use Values.{value-Agree}
use go_tpm.Base.{◌≡◌, List, ◌++◌, ℕ}
use go_tpm.Base.Outcome.{ok}
use go_tpm.Tpm2.Reflect.Types.{Ty, El}
use go_tpm.Tpm2.Reflect.Marshal.{marshal}
use go_tpm.Tpm2.Reflect.Unmarshal.{unmarshal}
use go_tpm.Tpm2.Reflect.Valid.{Valid, settle}

-- A valid value of any described type is marshalled with no error, and unmarshalling what was
-- written, with any bytes behind it, gives the value's settled form and exactly those bytes. The
-- settled form has TPM_ALG_NULL or TPM_RH_NULL for a zero-valued nullable number, the bytes of a
-- TPM2B for its contents, and no member for a union whose selector is TPM_ALG_NULL.
pub unmarshal-marshal :
    (t : Ty) (v : El t) (rest : List ℕ)
    → Valid t v
    → (b : List ℕ) × (marshal t v ≡ ok b) × (unmarshal t (b ++ rest) ≡ ok (settle t v, rest))
unmarshal-marshal t v rest h = let a = value-Agree t v h in (a.bytes, a.writes, a.reads rest)
