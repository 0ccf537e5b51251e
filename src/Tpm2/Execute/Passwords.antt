-- ===== src/Tpm2/Execute/Passwords.antt =====
-- tpm2/sessions.go: pwSession as an implementation of the interface Session.
use go_tpm.Base.{ℕ, List, [], none, false}
use go_tpm.Base.Outcome.{ok}
use go_tpm.Tpm2.Session.Password.{authorize_pw, validate_pw}
use go_tpm.Tpm2.Execute.Step.{lift}
use go_tpm.Tpm2.Execute.Sessions.{Sessions}

-- A password session is its auth value: no method changes it, and it does not use the TPM.
abbrev pub password_sessions : (W : Type 0) → Sessions W
password_sessions W = record {
  Session = List ℕ;
  password_auth = [];
  init = λ s. lift (ok tt);
  cleanup_failure = λ s. lift (ok tt);
  new_nonce_caller = λ s. lift (ok tt);
  nonce_tpm = λ w s. none;
  is_encryption = λ w s. false;
  is_decryption = λ w s. false;
  authorize = λ s cc parms add_nonces names auth_index. lift (ok (authorize_pw s));
  validate = λ s rc cc parms names auth_index auth. lift (validate_pw auth);
  encrypt = λ s b. lift (ok b);
  decrypt = λ s b. lift (ok b);
}
