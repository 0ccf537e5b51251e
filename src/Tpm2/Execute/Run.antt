-- ===== src/Tpm2/Execute/Run.antt =====
-- tpm2/reflect.go: execute, over sessions of any implementation and any transport.
use go_tpm.Base.{
  ℕ, ◌+◌, Bool, true, false, List, [], ◌∷◌, ◌++◌, Option, none, some, ltb, if◌then◌else◌, length,
}
use go_tpm.Base.Outcome.{ok, err, panic}
use go_tpm.Tpm2.Fault.{Fault, Res, too_many_sessions, tpm_rc}
use go_tpm.Tpm2.Command.{Command, ResponseField}
use go_tpm.Tpm2.Command.Arguments.{Argument, cmd_auths, cmd_handles, cmd_names}
use go_tpm.Tpm2.Execute.{cmd_header, rsp_header, rsp_parameters_area}
use go_tpm.Tpm2.Execute.Step.{Step, lift, continue, ◌>>=◌}
use go_tpm.Tpm2.Execute.Sessions.{Sessions}
use go_tpm.Tpm2.Execute.Request.{cmd_parameters, cmd_sessions}
use go_tpm.Tpm2.Execute.Response.{Slot, zero_response, rsp_handles, rsp_parameters, rsp_sessions}

-- The bytes after the header, by the header and the three areas.
abbrev pub lay_out : List ℕ → List ℕ → List ℕ → List ℕ → List ℕ
lay_out hdr handles area parms = hdr ++ (handles ++ (area ++ parms))

-- `len(sess) > 0`
abbrev pub has_any : {A : Type 0} → List A → Bool
has_any [] = false
has_any (s ∷ ss) = true

module _ {W : Type 0} (ops : Sessions W) where
  open ops use {Session}

  -- The loop that initialises the sessions.
  unfoldable pub init_all : List Session → Step W (Unit {0})
  init_all [] = lift (ok tt)
  init_all (s ∷ ss) = do started ← ops.init s; renewed ← ops.new_nonce_caller s; init_all ss

  -- What a cleanup's end is: its error is only mentioned in the message.
  abbrev pub ignore : {A : Type 0} → W × Res A → W × Res (Unit {0})
  ignore (w, ok a) = (w, ok tt)
  ignore (w, err e) = (w, ok tt)
  ignore (w, panic) = (w, panic)

  -- The emergency cleanup.
  unfoldable pub cleanup_all : List Session → Step W (Unit {0})
  cleanup_all [] w = (w, ok tt)
  cleanup_all (s ∷ ss) w = continue (ignore (ops.cleanup_failure s w)) (λ cleaned. cleanup_all ss)

  -- The names and the authorization area, which a command without sessions does not have.
  unfoldable pub authorization_area :
      ℕ → List (Argument Session) → List ℕ → List Session → Step W (List (List ℕ) × List ℕ)
  authorization_area cc args parms sess =
      if has_any sess
      then (do
        names ← lift (cmd_names args)
        area ← cmd_sessions ops sess cc names parms
        lift (ok (names, area)))
      else lift (ok ([], []))

  -- The command's bytes, and the names.
  unfoldable pub request :
      ℕ → List (Argument Session) → List Session → Step W (List ℕ × List (List ℕ))
  request cc args sess = do
    ready ← init_all sess
    parms ← cmd_parameters ops args sess
    (names, area) ← authorization_area cc args parms sess
    let n = 10 + length (cmd_handles args) + length area + length parms
    hdr ← lift (cmd_header (has_any sess) n cc)
    lift (ok (lay_out hdr (cmd_handles args) area parms, names))

  -- What follows an accepted header; `b` is the rest of the response.
  unfoldable pub read_response :
      ℕ → List (List ℕ) → List Session → List ResponseField → List ℕ → Step W (List Slot)
  read_response cc names sess fields b = do
    (rsp, b₁) ← lift (rsp_handles (zero_response fields) b)
    (parms, b₂) ← lift (rsp_parameters_area (has_any sess) b₁)
    checked ← if has_any sess then rsp_sessions ops b₂ 0 cc names parms sess else lift (ok tt)
    rsp_parameters ops parms sess rsp

  abbrev pub fail_with : {A : Type 0} → List Session → Fault → Step W A
  fail_with sess e = do cleaned ← cleanup_all sess; lift (err e)

  -- What `rspHeader` returns decides: an error, and a response code other than success, ends in the
  -- cleanup and that error.
  unfoldable pub on_header :
      ℕ
      → List (List ℕ)
      → List Session
      → List ResponseField
      → Res (Option ℕ × List ℕ)
      → Step W (List Slot)
  on_header cc names sess fields (ok (none, rest)) = read_response cc names sess fields rest
  on_header cc names sess fields (ok (some code, rest)) = fail_with sess (tpm_rc code)
  on_header cc names sess fields (err e) = fail_with sess e
  on_header cc names sess fields panic = lift panic

  -- `execute` once the sessions are collected; `send` is the transport's `Send`.
  unfoldable pub execute_with :
      (List ℕ → Step W (List ℕ))
      → ℕ
      → List (Argument Session)
      → List ResponseField
      → List Session
      → Step W (List Slot)
  execute_with send cc args fields sess =
      if ltb 3 (length sess) then lift (err too_many_sessions) else (do
        (command, names) ← request cc args sess
        response ← send command
        on_header cc names sess fields (rsp_header response))

  -- `execute`, for the command's `Execute`; `args` are the command's fields.
  unfoldable pub execute :
      (List ℕ → Step W (List ℕ))
      → Command
      → List (Argument Session)
      → List Session
      → Step W (List Slot)
  execute send cmd args extra = do
    sess ← lift (cmd_auths ops.password_auth args)
    execute_with send cmd.code args cmd.response (sess ++ extra)
