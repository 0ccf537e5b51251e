-- ===== src/Tpm2/Session/Open/Failures.antt =====
-- CleanupFailure: a session that was started for one command is flushed and can be started again.
use go_tpm.Base.{◌≡◌, refl, false}
use go_tpm.Base.Outcome.{ok, err}
use go_tpm.Tpm2.Fault.{Fault}
use go_tpm.Tpm2.Session.Password.{rh_null}
use go_tpm.Tpm2.Session.Options.{AuthSession}
use go_tpm.Tpm2.Session.Salt.{Platform}
use go_tpm.Tpm2.Session.Open.{open_session, init, cleanup_failure, flush}

-- The session without its handle.
abbrev pub closed : {T : Type 0} → AuthSession T → AuthSession T
closed s = record s { handle = rh_null }

module _ {T : Type 0} (p : Platform T) where
  -- When CleanupFailure flushes a session, which it does unless the session continues, the session
  -- forgets its handle, and the next Init starts a new one.
  pub cleanup_failure-init :
      (s : AuthSession T) (t t' : T)
      → s.options.attrs.continue_session ≡ false
      → flush p s.handle t ≡ (t', ok tt)
      → (cleanup_failure p (s, t) ≡ ((closed s, t'), ok tt))
        × (init p (closed s, t') ≡ open_session p (closed s, t'))
  unfolding cleanup_failure init
  cleanup_failure-init s t t' once flushed = (rw (once, flushed), refl)

  -- When the TPM refuses to flush the session, the session keeps its handle, so that Init leaves it
  -- alone, and the error is returned.
  cleanup_failure-refused :
      (s : AuthSession T) (t t' : T) (e : Fault)
      → s.options.attrs.continue_session ≡ false
      → flush p s.handle t ≡ (t', err e)
      → cleanup_failure p (s, t) ≡ ((s, t'), err e)
  unfolding cleanup_failure
  cleanup_failure-refused s t t' e once refused = rw (once, refused)
