-- ===== src/Legacy/ResponseCode/Agree.antt =====
-- legacy/tpm2/error.go against tpm2/errors.go: the two packages decode a response code alike.
use go_tpm.Base.{
  ℕ, ◌+◌, ◌-◌, ◌*◌, ◌/◌, ◌%◌, ◌^◌, ◌<◌, ◌≡◌, ◌∙◌, sym, ap, bit_and, not, some, if◌then◌else◌, arith,
}
use go_tpm.Base.Masks.{bit_and-pow, bit_and-low}
use go_tpm.Tpm2.ResponseCode.{
  Subject, handle_related, parameter_related, session_related, Fmt1Error, is_fmt1_error,
  is_fmt0_error, is_warning,
}
use go_tpm.Tpm2.ResponseCode.Masks.{bit_and-index, bit_and-index7, bit_and-warn, bit_and-fmt}
use go_tpm.Tpm2.ResponseCode.Laws.{encode, index_limit, encode-is_fmt1_error}
use go_tpm.Legacy.ResponseCode.{
  ResponseError, warning, error, parameter_error, handle_error, session_error, decode_response,
}

-- The error of the one package for the other's.
abbrev pub legacy_error : Subject → ℕ → ℕ → ResponseError
legacy_error handle_related c i = handle_error c i
legacy_error parameter_related c i = parameter_error c i
legacy_error session_related c i = session_error c i

-- The masks at a code.
record Masks (r : ℕ) : Type 0 where
  m180 : bit_and r 0x180 ≡ r / 128 % 4 * 128
  m80 : bit_and r 0x80 ≡ r / 128 % 2 * 128
  m40 : bit_and r 0x40 ≡ r / 64 % 2 * 64
  m400 : bit_and r 0x400 ≡ r / 1024 % 2 * 1024
  m800 : bit_and r 0x800 ≡ r / 2048 % 2 * 2048

masks : (r : ℕ) → Masks r
masks r = record {
  m180 = bit_and-fmt r;
  m80 = bit_and-pow 7 r;
  m40 = bit_and-pow 6 r;
  m400 = bit_and-pow 10 r;
  m800 = bit_and-pow 11 r;
}

pub decode_response-encode :
    (s : Subject) (c i : ℕ)
    → c < 64
    → i < index_limit s
    → decode_response (encode s c i) ≡ some (legacy_error s c i)
unfolding decode_response
decode_response-encode handle_related c i h k =
    let r : ℕ = 128 + c + i * 256 in
    let m = masks r in
    ground (arith, m.m180, m.m80, m.m40, m.m800, bit_and-low 6 r, bit_and-index7 r)
decode_response-encode parameter_related c i h k =
    let r : ℕ = 192 + c + i * 256 in
    let m = masks r in ground (arith, m.m180, m.m80, m.m40, bit_and-low 6 r, bit_and-index r)
decode_response-encode session_related c i h k =
    let r : ℕ = 2176 + c + i * 256 in
    let m = masks r in
    ground (arith, m.m180, m.m80, m.m40, m.m800, bit_and-low 6 r, bit_and-index7 r)

-- A code of 12 bits with the format bit, bit 7, is a format-1 error, and the error of package
-- legacy/tpm2 has its subject, its index, and its number less the format bit.
pub decode_response-is_fmt1_error :
    (r : ℕ)
    → r < 2 ^ 12
    → r / 2 ^ 7 % 2 ≡ 1
    → (e : Fmt1Error) × (is_fmt1_error r ≡ some e)
      × (decode_response r ≡ some (legacy_error e.subject (e.canonical - 0x80) e.index))
decode_response-is_fmt1_error r h k =
    let (e, read, again, number, index) = encode-is_fmt1_error r h k in
    (
      e,
      read,
      ap decode_response (sym again)
          ∙ decode_response-encode e.subject (e.canonical - 0x80) e.index number index,
    )

-- A code with bit 8, but neither bit 7 nor the vendor's bit 10, is a warning of both packages or a
-- format-0 error of both packages, and never both kinds; its number is the 7 low bits.
pub decode_response-is_warning :
    (r : ℕ)
    → r / 2 ^ 7 % 2 ≡ 0
    → r / 2 ^ 8 % 2 ≡ 1
    → r / 2 ^ 10 % 2 ≡ 0
    → (decode_response r ≡ some (if is_warning r then warning (r % 2 ^ 7) else error (r % 2 ^ 7)))
      × (is_fmt0_error r ≡ not (is_warning r))
unfolding decode_response is_warning is_fmt0_error is_fmt1_error
decode_response-is_warning r h k v =
    let m = masks r in
    let w : bit_and r 0x900 ≡ r / 2048 % 2 * 2048 + 256 = omega (arith, bit_and-warn r) in
    let n : bit_and r 0x7f ≡ r % 128 = bit_and-low 7 r in
    let b : bit_and r 0x100 ≡ r / 256 % 2 * 256 = bit_and-pow 8 r in
    (ground (arith, m.m180, m.m80, m.m400, m.m800, w, n, b), ground (arith, m.m80, w, b))
