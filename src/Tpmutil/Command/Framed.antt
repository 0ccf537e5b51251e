-- ===== src/Tpmutil/Command/Framed.antt =====
-- RunCommand: what is sent to the device, and what each response is taken for.
use go_tpm.Base.{
  ℕ, ◌+◌, ◌-◌, ◌%◌, ◌^◌, ◌<◌, ◌≤◌, ◌≡◌, ◌≢◌, refl, ap, ◌∙◌, sym, arith, List, [], ◌++◌, Option,
  none, some, Bool, true, false, ◌==◌, ltb, ltb-false, if◌then◌else◌, length, drop, length-append,
}
use go_tpm.Base.Bytes.{put_be, get_be, get_be-put_be}
use go_tpm.Base.Outcome.{ok, err, panic}
use go_tpm.Tpm2.Reflect.Types.{w16, w32}
use go_tpm.Tpmutil.Encoding.{
  Res, Values, ptr, no_values, value, eof, pack_value, pack_values, read_full, binary_read,
  unpack_value, unpack_buf, unpack,
}
use go_tpm.Tpmutil.Encoding.RoundTrip.{
  Fits, fits_num, fits_ptr, fits_struct, fits_none, fits_value, value_back,
}
use go_tpm.Tpmutil.Run.{Answer, bytes_read, response_code, rc_retry}
use go_tpm.Tpmutil.Run.Retry.{
  AsksRetry, IsFinal, outcome, run_command_raw-retried, run_command_raw-exhausted,
}
use go_tpm.Tpmutil.Command.{
  header_struct, pack_with_header, encoding, blank_header, after_unpack, after_pack, after_raw,
  run_command,
}
use mathlib.Core.Path.{subst}
use native.Mathlib.Nat.{mod-eq_of_lt}

-- The ten bytes of a header.
abbrev pub header_bytes : ℕ → ℕ → ℕ → List ℕ
header_bytes tag size n = put_be 2 tag ++ (put_be 4 size ++ (put_be 4 n ++ []))

-- The length counts the header, and is cut to 32 bits.
abbrev pub command_bytes : ℕ → ℕ → List ℕ → List ℕ
command_bytes tag cmd body = header_bytes tag ((10 + length body) % 2 ^ 32) cmd ++ body

packed_of : Res (List ℕ) → List ℕ
packed_of (ok b) = b
packed_of (err e) = []
packed_of panic = []

module _ (tag size n : ℕ) (fits_tag : tag < 256 ^ 2) (fits_size : size < 256 ^ 4)
    (fits_n : n < 256 ^ 4) where
  header-Fits : Fits (ptr (header_struct 0 0 0)) (ptr (header_struct tag size n))
  header-Fits = fits_ptr _ _ (
      fits_struct _ _ (
        fits_value _ _ _ _ (fits_num w16 0 tag fits_tag) (
          fits_value _ _ _ _ (fits_num w32 0 size fits_size)
            (fits_value _ _ _ _ (fits_num w32 0 n fits_n) fits_none))))

  header_unpacked :
      (rest : List ℕ)
      → unpack_value (ptr (header_struct 0 0 0)) (header_bytes tag size n ++ rest)
        ≡ ok (ptr (header_struct tag size n), rest)
  unfolding packed_of pack_value
  header_unpacked rest =
      let a = value_back _ _ header-Fits in
      let e : header_bytes tag size n ≡ a.0 = ap packed_of (a.1) in
      ap (λ b. unpack_value (ptr (header_struct 0 0 0)) (b ++ rest)) e ∙ a.2 rest

  length-header_bytes : length (header_bytes tag size n) ≡ 10
  unfolding put_be
  length-header_bytes = refl

  response_code-header_bytes :
      (rest : List ℕ) → response_code (header_bytes tag size n ++ rest) ≡ some n
  unfolding put_be
  response_code-header_bytes rest =
      let long : ltb (length (header_bytes tag size n ++ rest)) 10 ≡ false =
        ltb-false (length (header_bytes tag size n ++ rest)) 10 (omega arith) in
      let low : get_be (put_be 4 n) ≡ n = get_be-put_be 4 n ∙ mod-eq_of_lt fits_n in rw (long, low)

  unpack-header_bytes :
      (rest : List ℕ)
      → unpack (header_bytes tag size n ++ rest) blank_header
        ≡ ok (value (ptr (header_struct tag size n)) no_values, 10)
  unfolding unpack unpack_buf
  unpack-header_bytes rest =
      let wide : length (header_bytes tag size n ++ rest) - length rest ≡ 10 =
        omega (arith, length-append (header_bytes tag size n) rest, length-header_bytes) in
      rw (header_unpacked rest, wide)

with_header :
    (tag cmd : ℕ) (args : Values) (body : List ℕ)
    → pack_values args ≡ ok body
    → pack_with_header tag cmd args ≡ ok (command_bytes tag cmd body)
unfolding pack_with_header
with_header tag cmd args body e = rw e

module _ (t s res : ℕ) (out : List ℕ) (ft : t < 256 ^ 2) (fs : s < 256 ^ 4)
    (fr : res < 256 ^ 4) where
  drop_header : drop 10 (header_bytes t s res ++ out) ≡ out
  unfolding put_be
  drop_header = refl

  with_code-header :
      (b : Bool)
      → ◌≡◌ {A = Option (List ℕ) × ℕ}
          (if b then (some (drop 10 (header_bytes t s res ++ out)), res) else (none, res))
          (if b then some out else none, res)
  with_code-header true = rw drop_header
  with_code-header false = refl

  after_raw-header :
      after_raw (some (header_bytes t s res ++ out), none)
      ≡ ok (if res == 0 then some out else none, res)
  unfolding after_raw
  after_raw-header =
      ap (after_unpack (header_bytes t s res ++ out)) (unpack-header_bytes t s res ft fs fr out)
      ∙ ap ok (with_code-header (res == 0))

-- RunCommand sends a header of ten bytes with the command's tag, the length of all that is sent,
-- cut to 32 bits, and the command code, and then the packed arguments. When at most 11 tries are
-- answered with RCRetry and the next one with a header whose code is any other and with some
-- bytes, it returns the code, and those bytes when the code is RCSuccess.
pub run_command-answered :
    (device : List ℕ → ℕ → Answer) (tag cmd : ℕ) (args : Values) (body : List ℕ) (k t s res : ℕ)
    (out : List ℕ)
    → pack_values args ≡ ok body
    → ((i : ℕ) → i < k → AsksRetry (device (command_bytes tag cmd body) i))
    → device (command_bytes tag cmd body) k ≡ bytes_read (header_bytes t s res ++ out)
    → k ≤ 11
    → t < 256 ^ 2
    → s < 256 ^ 4
    → res < 256 ^ 4
    → res ≢ rc_retry
    → run_command device tag cmd args ≡ ok (if res == 0 then some out else none, res)
unfolding run_command
run_command-answered device tag cmd args body k t s res out packed again answer h ft fs fr ne =
    let inb = command_bytes tag cmd body in
    let final : IsFinal (bytes_read (header_bytes t s res ++ out)) =
      (res, response_code-header_bytes t s res ft fs fr out, ne) in
    ap (λ p. after_pack p device) (with_header tag cmd args body packed)
    ∙ ap after_raw
        (run_command_raw-retried (device inb) k h again (subst IsFinal (sym answer) final))
    ∙ ap (λ a. after_raw (outcome a)) answer
    ∙ after_raw-header t s res out ft fs fr

-- A command whose first 12 tries are answered with RCRetry ends in the error io.EOF: the nil
-- slice that RunCommandRaw returns with no error is too short for a header.
pub run_command-busy :
    (device : List ℕ → ℕ → Answer) (tag cmd : ℕ) (args : Values) (body : List ℕ)
    → pack_values args ≡ ok body
    → ((i : ℕ) → i < 12 → AsksRetry (device (command_bytes tag cmd body) i))
    → run_command device tag cmd args ≡ err (encoding eof)
unfolding run_command after_raw unpack unpack_buf unpack_value binary_read read_full
run_command-busy device tag cmd args body packed again =
    ap (λ p. after_pack p device) (with_header tag cmd args body packed)
    ∙ ap after_raw (run_command_raw-exhausted (device (command_bytes tag cmd body)) again)
