-- ===== src/Tpmutil/Run.antt =====
-- tpmutil/run.go: RunCommandRaw over a device. The device, with its file descriptor and clock, is
-- not code of the repository: it is a function from the number of earlier tries to what comes back.
use go_tpm.Base.{
  ℕ, zero, suc, ◌==◌, if◌then◌else◌, List, Option, none, some, ltb, length, take, drop,
}
use go_tpm.Base.Bytes.{get_be}
pub mod Retry

-- One try: an error of `Write`, `poll` or `Read`, or the bytes that were read, at most 4096.
pub data Answer : Type 0 where
  device_error : Answer
  bytes_read : List ℕ → Answer

-- The error result: the device's error, or the header's, which is shorter than 10 bytes.
pub data RunError : Type 0 where
  device_failed short_header : RunError

-- The response code of a header: a tag of 2 bytes, a size of 4, and the code of 4.
abbrev pub response_code : List ℕ → Option ℕ
response_code b = if ltb (length b) 10 then none else some (get_be (take 4 (drop 6 b)))

abbrev pub rc_retry : ℕ
rc_retry = 0x922

-- The two results of the function: a nil slice and a nil error are `none`.
abbrev pub RawResult : Type 0
RawResult = Option (List ℕ) × Option RunError

-- What is done with the bytes of a try; `retry` is the next turn of the loop.
abbrev pub after_try : List ℕ → Option ℕ → RawResult → RawResult
after_try b none retry = (none, some short_header)
after_try b (some res) retry = if res == rc_retry then retry else (some b, none)

abbrev pub on_answer : Answer → RawResult → RawResult
on_answer device_error retry = (none, some device_failed)
on_answer (bytes_read b) retry = after_try b (response_code b) retry

-- The loop, `left` being how often `backoffFac` can still grow.
unfoldable pub run_loop : ℕ → ℕ → (ℕ → Answer) → RawResult
run_loop zero tries device = on_answer (device tries) (none, none)
run_loop (suc left) tries device = on_answer (device tries) (run_loop left (suc tries) device)

-- `backoffFac` starts at 0 and grows to 11.
unfoldable pub run_command_raw : (ℕ → Answer) → RawResult
run_command_raw device = run_loop 11 0 device
