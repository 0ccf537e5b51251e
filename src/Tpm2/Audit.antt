-- ===== src/Tpm2/Audit.antt =====
-- tpm2/audit.go, and CPHash of tpm2/sessions.go.
use go_tpm.Base.{ℕ, Bool, true, false, List, [], ◌∷◌, ◌++◌, replicate, if◌then◌else◌}
use go_tpm.Base.Outcome.{Result, ok, err, panic, ◌>>=◌}
use go_tpm.Tpm2.Fault.{Res}
use go_tpm.Tpm2.Reflect.Marshal.{marshal}
use go_tpm.Tpm2.Session.Crypto.{Crypto, Hash, hash_of}
use go_tpm.Tpm2.Session.Hashes.{cp_hash, rp_hash}
use go_tpm.Tpm2.Command.{is_handle_out}
use go_tpm.Tpm2.Command.Arguments.{Argument, cmd_names}
use go_tpm.Tpm2.Execute.Sessions.{Sessions}
use go_tpm.Tpm2.Execute.Request.{cmd_parameters}
use go_tpm.Tpm2.Execute.Response.{Slot, type_of}
pub mod Chain

-- CommandAudit
pub record CommandAudit : Type 0 where
  pub hash : ℕ
  pub digest : List ℕ

-- The parameters of a response marshalled one after the other.
unfoldable pub marshal_outs : List Slot → Res (List ℕ)
marshal_outs [] = ok []
marshal_outs ((f, v) ∷ rsp) = do
  b ← if is_handle_out f then ok [] else marshal (type_of f) v
  rest ← marshal_outs rsp
  ok (b ++ rest)

-- The new digest, unless there is an error.
abbrev pub keep_or : CommandAudit → Res (List ℕ) → CommandAudit × Res (Unit {0})
keep_or a (ok digest) = (record { hash = a.hash; digest = digest }, ok tt)
keep_or a (err e) = (a, err e)
keep_or a panic = (a, panic)

module _ (crypto : Crypto) where
  -- `NewAudit`
  unfoldable pub new_audit : ℕ → Res CommandAudit
  new_audit alg = do
    h ← hash_of alg
    ok (record { hash = alg; digest = replicate (crypto.size h) 0 })

  -- `auditRPHash`; the response code is success.
  unfoldable pub audit_rp_hash : ℕ → ℕ → List Slot → Res (List ℕ)
  audit_rp_hash alg cc rsp = do parms ← marshal_outs rsp; rp_hash crypto alg 0 cc parms

  module _ {W : Type 0} (ops : Sessions W) where
    open ops use {Session}

    -- `auditCPHash` and `CPHash`: without sessions, so in any state of them.
    unfoldable pub audit_cp_hash : W → ℕ → ℕ → List (Argument Session) → Res (List ℕ)
    audit_cp_hash w alg cc args = do
      names ← cmd_names args
      parms ← (cmd_parameters ops args [] w).1
      cp_hash crypto alg cc names parms

    -- The digest that `AuditCommand` sets.
    unfoldable pub extended :
        W → CommandAudit → ℕ → List (Argument Session) → List Slot → Res (List ℕ)
    extended w a cc args rsp = do
      cph ← audit_cp_hash w a.hash cc args
      rph ← audit_rp_hash a.hash cc rsp
      h ← hash_of a.hash
      ok (crypto.sum h (a.digest ++ (cph ++ rph)))

    -- `AuditCommand`: an error leaves the digest as it is.
    unfoldable pub audit_command :
        W → CommandAudit → ℕ → List (Argument Session) → List Slot → CommandAudit × Res (Unit {0})
    audit_command w a cc args rsp = keep_or a (extended w a cc args rsp)
