-- ===== src/Tpm2/ResponseCode/Laws.antt =====
-- tpm2/errors.go: a format-1 code is read as it is put together.
use go_tpm.Base.{
  ℕ, ◌+◌, ◌-◌, ◌*◌, ◌/◌, ◌%◌, ◌^◌, ◌<◌, ◌≡◌, ◌⊎◌, inl, inr, bit_and, bit_xor, true, false, some,
  ◌==◌, arith,
}
use go_tpm.Base.Masks.{bit_and-pow, bit_xor-pow}
use go_tpm.Tpm2.ResponseCode.{
  Subject, handle_related, parameter_related, session_related, Fmt1Error, take_subject,
  is_fmt1_error,
}
use go_tpm.Tpm2.ResponseCode.Masks.{bit_and-index, bit_and-keep}

-- The format-1 code for an error number with what it is about, as the TPM puts it together.
abbrev pub encode : Subject → ℕ → ℕ → ℕ
encode handle_related c i = 0x80 + c + i * 256
encode parameter_related c i = 0x80 + 0x40 + c + i * 256
encode session_related c i = 0x80 + 0x800 + c + i * 256

-- There are 15 parameters, and 7 handles or sessions.
abbrev pub index_limit : Subject → ℕ
index_limit handle_related = 8
index_limit parameter_related = 16
index_limit session_related = 8

abbrev pub fmt1 : Subject → ℕ → ℕ → Fmt1Error
fmt1 s c i = record { canonical = 0x80 + c; subject = s; index = i }

take_subject-parameter : (r : ℕ) → r / 64 % 2 ≡ 1 → take_subject r ≡ (parameter_related, r - 64)
unfolding take_subject
take_subject-parameter r h =
    let x : bit_xor r 64 ≡ r - 64 = omega (arith, bit_xor-pow 6 r h) in
    let t : (bit_and r 64 == 64) ≡ true = ground (arith, bit_and-pow 6 r) in rw (t, x)

take_subject-session :
    (r : ℕ) → r / 64 % 2 ≡ 0 → r / 2048 % 2 ≡ 1 → take_subject r ≡ (session_related, r - 2048)
unfolding take_subject
take_subject-session r h k =
    let x : bit_xor r 2048 ≡ r - 2048 = omega (arith, bit_xor-pow 11 r k) in
    let t : (bit_and r 64 == 64) ≡ false = ground (arith, bit_and-pow 6 r) in
    let u : (bit_and r 2048 == 2048) ≡ true = ground (arith, bit_and-pow 11 r) in rw (t, u, x)

take_subject-handle :
    (r : ℕ) → r / 64 % 2 ≡ 0 → r / 2048 % 2 ≡ 0 → take_subject r ≡ (handle_related, r)
unfolding take_subject
take_subject-handle r h k =
    let t : (bit_and r 64 == 64) ≡ false = ground (arith, bit_and-pow 6 r) in
    let u : (bit_and r 2048 == 2048) ≡ false = ground (arith, bit_and-pow 11 r) in rw (t, u)

mod_two : (a : ℕ) → (a % 2 ≡ 0) ⊎ (a % 2 ≡ 1)
mod_two a = omega arith

-- What is left to do once the subject is known.
is_fmt1_error-subject :
    (r : ℕ) {code c i : ℕ} {s : Subject}
    → take_subject r ≡ (s, code)
    → r / 128 % 2 ≡ 1
    → code < 2 ^ 32
    → code / 4096 * 4096 + code % 256 ≡ c
    → code / 256 % 16 ≡ i
    → is_fmt1_error r ≡ some (record { canonical = c; subject = s; index = i })
unfolding is_fmt1_error
is_fmt1_error-subject r {code} {c} {i} e h small hc hi =
    let f : (bit_and r 128 == 128) ≡ true = ground (arith, bit_and-pow 7 r) in
    let k : bit_and code 0xFFFFF0FF ≡ c = omega (arith, bit_and-keep code) in
    let m : bit_and code 0xF00 / 256 ≡ i = omega (arith, bit_and-index code) in rw (f, e, k, m)

-- A format-1 code that is put together from a subject, an error number of 6 bits and an index
-- in the subject's range is read as these, with the number under the format bit.
pub is_fmt1_error-encode :
    (s : Subject) (c i : ℕ)
    → c < 64
    → i < index_limit s
    → is_fmt1_error (encode s c i) ≡ some (record { canonical = 0x80 + c; subject = s; index = i })
is_fmt1_error-encode handle_related c i h k =
    let r : ℕ = 128 + c + i * 256 in
    is_fmt1_error-subject r (take_subject-handle r (omega arith) (omega arith)) (omega arith)
      (omega arith) (omega arith) (omega arith)
is_fmt1_error-encode parameter_related c i h k =
    let r : ℕ = 192 + c + i * 256 in
    is_fmt1_error-subject r (take_subject-parameter r (omega arith)) (omega arith) (omega arith)
      (omega arith) (omega arith)
is_fmt1_error-encode session_related c i h k =
    let r : ℕ = 2176 + c + i * 256 in
    is_fmt1_error-subject r (take_subject-session r (omega arith) (omega arith)) (omega arith)
      (omega arith) (omega arith) (omega arith)

-- Every code of 12 bits with the format bit is read, and what is read puts the code together.
pub encode-is_fmt1_error :
    (r : ℕ)
    → r < 2 ^ 12
    → r / 2 ^ 7 % 2 ≡ 1
    → (e : Fmt1Error) × (is_fmt1_error r ≡ some e)
      × (encode e.subject (e.canonical - 0x80) e.index ≡ r)
      × (e.canonical - 0x80 < 64)
      × (e.index < index_limit e.subject)
encode-is_fmt1_error r h k = elim (mod_two (r / 64)) [
  | inr p ↦ (
    fmt1 parameter_related (r % 64) (r / 256),
    is_fmt1_error-subject r (take_subject-parameter r p) k (omega arith) (omega arith)
        (omega arith),
    omega arith,
    omega arith,
    omega arith,
  )
  | inl np ↦ elim (mod_two (r / 2048)) [
    | inr s ↦ (
      fmt1 session_related (r % 64) (r / 256 % 8),
      is_fmt1_error-subject r (take_subject-session r np s) k (omega arith) (omega arith)
          (omega arith),
      omega arith,
      omega arith,
      omega arith,
    )
    | inl ns ↦ (
      fmt1 handle_related (r % 64) (r / 256),
      is_fmt1_error-subject r (take_subject-handle r np ns) k (omega arith) (omega arith)
          (omega arith),
      omega arith,
      omega arith,
      omega arith,
    )
  ]
]
