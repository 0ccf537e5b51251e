-- ===== src/Tpm2/Session/Key.antt =====
-- hmacKeyFromAuthValue of tpm2/sessions.go.
use go_tpm.Base.{ℕ, zero, suc, List, Bool, ◌==◌, ltb, if◌then◌else◌, length, take, get_or}
use go_tpm.Base.Outcome.{ok, panic}
use go_tpm.Tpm2.Fault.{Res}
pub mod Trim

-- The loop, with `i` indices left to look at; an index out of range panics.
unfoldable pub trim : ℕ → List ℕ → Res (List ℕ)
trim zero key = ok key
trim (suc i) key =
    let rest = trim i (if get_or key i 0 == 0 then take i key else key) in
    if ltb i (length key) then rest else panic

unfoldable pub hmac_key_from_auth_value : List ℕ → Res (List ℕ)
hmac_key_from_auth_value auth = trim (length auth) auth
