-- ===== src/Tpmutil/Command.antt =====
-- packWithHeader of tpmutil/encoding.go and RunCommand of tpmutil/run.go, over a device that is
-- given the packed command.
pub mod Framed
use go_tpm.Base.{
  ℕ, zero, suc, ◌+◌, ◌%◌, ◌^◌, List, [], ◌∷◌, ◌++◌, Option, none, some, ◌==◌, if◌then◌else◌, length,
  take, drop,
}
use go_tpm.Base.Outcome.{Result, ok, err, panic, ◌>>=◌, ◌>>◌}
use go_tpm.Tpm2.Reflect.Types.{w16, w32}
use go_tpm.Tpmutil.Encoding.{
  Fault, Res, Value, Values, num, ptr, struct, no_values, value, eof, pack_value, pack_values,
  unpack,
}
use go_tpm.Tpmutil.Run.{Answer, RunError, RawResult, run_command_raw}

-- The structs commandHeader and responseHeader.
abbrev pub header_struct : ℕ → ℕ → ℕ → Value
header_struct tag size n =
    struct (value (num w16 tag) (value (num w32 size) (value (num w32 n) no_values)))

-- `uint32(hdrSize + bodySize)`
unfoldable pub pack_with_header : ℕ → ℕ → Values → Res (List ℕ)
unfolding pack_value
pack_with_header tag cmd args = do
  body ← pack_values args
  head ← pack_value (header_struct tag ((10 + length body) % 2 ^ 32) cmd)
  ok (head ++ body)

-- The error of RunCommand: Pack's or Unpack's, or that of RunCommandRaw.
pub data CommandError : Type 0 where
  encoding : Fault → CommandError
  running : RunError → CommandError

-- The response code of the header, and how long the header is.
abbrev pub header_code : Values × ℕ → ℕ × ℕ
header_code (value (ptr (struct (value t (value s (value (num w res) vs))))) no_values, n) =
    (res, n)
header_code (vs, n) = (0, n)

abbrev pub blank_header : Values
blank_header = value (ptr (header_struct 0 0 0)) no_values

-- A response code that is not RCSuccess is returned with no body.
abbrev pub with_code : List ℕ → ℕ × ℕ → Option (List ℕ) × ℕ
with_code outb (res, read) = if res == 0 then (some (drop read outb), res) else (none, res)

abbrev pub after_unpack : List ℕ → Res (Values × ℕ) → Result CommandError (Option (List ℕ) × ℕ)
after_unpack outb (ok r) = ok (with_code outb (header_code r))
after_unpack outb (err e) = err (encoding e)
after_unpack outb panic = panic

-- A nil slice has no bytes.
unfoldable pub after_raw : RawResult → Result CommandError (Option (List ℕ) × ℕ)
unfolding unpack
after_raw (outb, some e) = err (running e)
after_raw (some b, none) = after_unpack b (unpack b blank_header)
after_raw (none, none) = after_unpack [] (unpack [] blank_header)

abbrev pub after_pack :
    Res (List ℕ) → (List ℕ → ℕ → Answer) → Result CommandError (Option (List ℕ) × ℕ)
after_pack (ok inb) device = after_raw (run_command_raw (device inb))
after_pack (err e) device = err (encoding e)
after_pack panic device = panic

unfoldable pub run_command :
    (List ℕ → ℕ → Answer) → ℕ → ℕ → Values → Result CommandError (Option (List ℕ) × ℕ)
unfolding pack_with_header after_raw run_command_raw
run_command device tag cmd args = after_pack (pack_with_header tag cmd args) device
