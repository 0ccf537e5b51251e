-- ===== src/Tpm2/ResponseCode.antt =====
-- tpm2/errors.go: what a TPMRC says. A TPMRC is a uint32.
use go_tpm.Base.{
  ℕ, ◌/◌, ◌^◌, bit_and, bit_xor, Bool, true, false, not, ◌&&◌, Option, none, some, ◌==◌,
  if◌then◌else◌,
}
pub mod Masks
pub mod Laws
pub mod Descriptions
pub mod Tables
pub mod Messages
pub mod Listed

abbrev pub rc_ver1 : ℕ
rc_ver1 = 0x100

abbrev pub rc_fmt1 : ℕ
rc_fmt1 = 0x80

abbrev pub rc_warn : ℕ
rc_warn = 0x900

abbrev pub rc_p : ℕ
rc_p = 0x40

abbrev pub rc_s : ℕ
rc_s = 0x800

pub data Subject : Type 0 where
  handle_related parameter_related session_related : Subject

pub record Fmt1Error : Type 0 where
  pub canonical : ℕ
  pub subject : Subject
  pub index : ℕ

-- `Handle`, `Parameter` and `Session`: the second result is 0 where the first is false.
unfoldable pub handle : Fmt1Error → Bool × ℕ
handle e = elim e.subject [ handle_related ↦ (true, e.index) | _ ↦ (false, 0) ]

unfoldable pub parameter : Fmt1Error → Bool × ℕ
parameter e = elim e.subject [ parameter_related ↦ (true, e.index) | _ ↦ (false, 0) ]

unfoldable pub session : Fmt1Error → Bool × ℕ
session e = elim e.subject [ session_related ↦ (true, e.index) | _ ↦ (false, 0) ]

unfoldable pub is_fmt0_error : ℕ → Bool
is_fmt0_error r = (bit_and r rc_ver1 == rc_ver1) && not (bit_and r rc_warn == rc_warn)

-- The subject, and the code with the subject's bit taken off.
unfoldable pub take_subject : ℕ → Subject × ℕ
take_subject r =
    if bit_and r rc_p == rc_p
    then (parameter_related, bit_xor r rc_p)
    else if bit_and r rc_s == rc_s
    then (session_related, bit_xor r rc_s)
    else (handle_related, r)

-- `some` is the first result true.
unfoldable pub is_fmt1_error : ℕ → Option Fmt1Error
is_fmt1_error r =
    if not (bit_and r rc_fmt1 == rc_fmt1)
    then none
    else (let (subject, code) = take_subject r in
        some (record {
          canonical = bit_and code 0xFFFFF0FF;
          subject = subject;
          index = bit_and code 0xF00 / 2 ^ 8;
        }))

unfoldable pub is_warning : ℕ → Bool
is_warning r = elim (is_fmt1_error r) [
  | some e ↦ false
  | none ↦ (bit_and r rc_ver1 == rc_ver1) && (bit_and r rc_warn == rc_warn)
]

-- `Is`: the target is a TPMRC or, as `none`, another error.
unfoldable pub is : ℕ → Option ℕ → Bool
is r none = false
is r (some target) = elim (is_fmt1_error r) [ some e ↦ e.canonical == target | none ↦ r == target ]
