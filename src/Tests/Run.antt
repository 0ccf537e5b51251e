-- ===== src/Tests/Run.antt =====
-- tpmutil/run.go with a device that is busy at first.
use go_tpm.Base.{ℕ, zero, suc, ◌<◌, ◌≡◌, refl, List, [], ◌∷◌, arith}
use go_tpm.Base.Bytes.{get_be, be_from}
use go_tpm.Tpmutil.Run.{Answer, bytes_read, run_command_raw}
use go_tpm.Tpmutil.Run.Retry.{AsksRetry, IsFinal, outcome, run_command_raw-retried}

abbrev busy : List ℕ
busy = 0x80 ∷ 1 ∷ 0 ∷ 0 ∷ 0 ∷ 10 ∷ 0 ∷ 0 ∷ 9 ∷ 0x22 ∷ []

abbrev done : List ℕ
done = 0x80 ∷ 1 ∷ 0 ∷ 0 ∷ 0 ∷ 10 ∷ 0 ∷ 0 ∷ 0 ∷ 0 ∷ []

abbrev busy_once : ℕ → Answer
busy_once zero = bytes_read busy
busy_once (suc n) = bytes_read done

abbrev always_busy : ℕ → Answer
always_busy n = bytes_read busy

busy_first : (i : ℕ) → i < 1 → AsksRetry (busy_once i)
unfolding get_be be_from
busy_first zero h = refl
busy_first (suc i) h = absurd (omega arith)

then_done : IsFinal (busy_once 1)
unfolding get_be be_from
then_done = (0, refl, omega arith)

never_done : (i : ℕ) → i < 12 → AsksRetry (always_busy i)
unfolding get_be be_from
never_done i h = refl

run_command_raw-retried_example : run_command_raw busy_once ≡ outcome (busy_once 1)
run_command_raw-retried_example =
    run_command_raw-retried busy_once 1 (omega arith) busy_first then_done
