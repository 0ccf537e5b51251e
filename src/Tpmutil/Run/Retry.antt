-- ===== src/Tpmutil/Run/Retry.antt =====
-- tpmutil/run.go: what RunCommandRaw returns for each sequence of answers.
use go_tpm.Base.{
  ℕ, zero, suc, ◌+◌, ◌-◌, ◌≤◌, ◌<◌, ◌≡◌, ◌≢◌, refl, ap, ◌∙◌, List, Option, none, some, arith, ==_ne,
}
use go_tpm.Tpmutil.Run.{
  Answer, device_error, bytes_read, RunError, device_failed, response_code, rc_retry, run_loop,
  run_command_raw, after_try, on_answer, RawResult,
}

-- A try that is answered with TPM_RC_RETRY.
abbrev pub AsksRetry : Answer → Type 0
AsksRetry device_error = ⊥
AsksRetry (bytes_read b) = response_code b ≡ some rc_retry

-- The answer is another response code, or the device's error.
abbrev pub IsFinal : Answer → Type 0
IsFinal device_error = Unit
IsFinal (bytes_read b) = (res : ℕ) × (response_code b ≡ some res) × (res ≢ rc_retry)

abbrev pub outcome : Answer → Option (List ℕ) × Option RunError
outcome device_error = (none, some device_failed)
outcome (bytes_read b) = (some b, none)

final_answer : (a : Answer) (retry : RawResult) → IsFinal a → on_answer a retry ≡ outcome a
final_answer device_error retry f = refl
final_answer (bytes_read b) retry (res, code, other) =
    ap (λ o. after_try b o retry) code ∙ rw (==_ne res rc_retry other)

retry_answer : (a : Answer) (retry : RawResult) → AsksRetry a → on_answer a retry ≡ retry
retry_answer device_error retry f = absurd f
retry_answer (bytes_read b) retry f = ap (λ o. after_try b o retry) f

module _ (device : ℕ → Answer) where
  run_loop-final :
      (left tries : ℕ)
      → IsFinal (device tries)
      → run_loop left tries device ≡ outcome (device tries)
  unfolding run_loop
  run_loop-final zero tries f = final_answer (device tries) (none, none) f
  run_loop-final (suc left) tries f =
      final_answer (device tries) (run_loop left (suc tries) device) f

  -- After some answers of TPM_RC_RETRY the loop stands where they leave it.
  run_loop-skip :
      (k left tries : ℕ)
      → ((i : ℕ) → i < tries + k → AsksRetry (device i))
      → run_loop (k + left) tries device ≡ run_loop left (tries + k) device
  unfolding run_loop
  run_loop-skip zero left tries h =
      let a : 0 + left ≡ left = omega arith in
      let b : tries ≡ tries + 0 = omega arith in
      ap (λ l. run_loop l tries device) a ∙ ap (λ t. run_loop left t device) b
  run_loop-skip (suc k) left tries h =
      let a : suc k + left ≡ suc (k + left) = omega arith in
      let b : suc tries + k ≡ tries + suc k = omega arith in
      ap (λ l. run_loop l tries device) a
      ∙ retry_answer (device tries) (run_loop (k + left) (suc tries) device) (h tries (omega arith))
      ∙ run_loop-skip k left (suc tries) (λ i l. h i (omega arith))
      ∙ ap (λ t. run_loop left t device) b

  -- A command whose first tries, at most 11, are answered with TPM_RC_RETRY, and the next one with
  -- another code or an error of the device, returns that answer.
  pub run_command_raw-retried :
      (k : ℕ)
      → k ≤ 11
      → ((i : ℕ) → i < k → AsksRetry (device i))
      → IsFinal (device k)
      → run_command_raw device ≡ outcome (device k)
  unfolding run_command_raw
  run_command_raw-retried k h again f =
      let a : 11 ≡ k + (11 - k) = omega arith in
      let b : 0 + k ≡ k = omega arith in
      ap (λ l. run_loop l 0 device) a
      ∙ run_loop-skip k (11 - k) 0 (λ i l. again i (omega arith))
      ∙ ap (λ t. run_loop (11 - k) t device) b
      ∙ run_loop-final (11 - k) k f

  -- A command whose first 12 tries are answered with TPM_RC_RETRY returns neither a response nor
  -- an error.
  pub run_command_raw-exhausted :
      ((i : ℕ) → i < 12 → AsksRetry (device i)) → run_command_raw device ≡ (none, none)
  unfolding run_command_raw run_loop
  run_command_raw-exhausted again =
      run_loop-skip 11 0 0 (λ i l. again i (omega arith))
      ∙ retry_answer (device 11) (none, none) (again 11 (omega arith))
