-- ===== src/Tpm2/ResponseCode/Listed.antt =====
-- tpm2/errors.go and legacy/tpm2/error.go: the tables hold the codes that the methods look up.
use go_tpm.Base.{ℕ, ◌-◌, ◌≡◌, refl, true, String, List, ◌++◌, Option, some, map, all_distinct}
use go_tpm.Tpm2.ResponseCode.{
  handle_related, is_fmt0_error, is_fmt1_error, is_warning, take_subject,
}
use go_tpm.Tpm2.ResponseCode.Descriptions.{ErrorDesc}
use go_tpm.Tpm2.ResponseCode.Messages.{Message, described, described_fmt1, message, fmt1_message}
use go_tpm.Tpm2.ResponseCode.Tables.Fmt0.{fmt0_descs}
use go_tpm.Tpm2.ResponseCode.Tables.Fmt1.{fmt1_descs}
use go_tpm.Tpm2.ResponseCode.Tables.Warnings.{warn_descs}
use go_tpm.Legacy.ResponseCode.Messages.{
  fmt0_msg, fmt1_msg, warn_msg, Text, error_text, warning_text, handle_text, error_message,
}
use go_tpm.Legacy.ResponseCode.{decode_response}
use mathlib.Core.Option

-- The messages of the codes, each its own name and description.
abbrev own_messages : List (ℕ × ErrorDesc) → List Message
own_messages table = map (λ e. described e.1) table

abbrev messages_of : List (ℕ × ErrorDesc) → List Message
messages_of table = map (λ e. message e.0) table

abbrev codes : {A : Type 0} → List (ℕ × A) → List ℕ
codes table = map (λ e. e.0) table

-- Every code of the tables of the format-0 errors and of the warnings gives the message of its own
-- name and description, and every code of the table of the format-1 errors that of its own as an
-- error of the handle 0; and no code stands in two tables or twice in one.
pub message-listed :
    (messages_of fmt0_descs ≡ own_messages fmt0_descs)
    × (messages_of warn_descs ≡ own_messages warn_descs)
    × (messages_of fmt1_descs ≡ map (λ e. described_fmt1 e.1 handle_related 0) fmt1_descs)
    × (all_distinct (codes fmt0_descs ++ (codes fmt1_descs ++ codes warn_descs)) ≡ true)
unfolding message fmt1_message is_fmt0_error is_fmt1_error is_warning take_subject
message-listed = (refl, refl, refl, refl)

abbrev legacy_codes : ℕ → List (ℕ × ErrorDesc) → List ℕ
legacy_codes base table = map (λ e. e.0 - base) table

-- What decodeResponse of package legacy makes of each code.
abbrev legacy_texts : List (ℕ × ErrorDesc) → List (Option Text)
legacy_texts table = map (λ e. Option.map error_message (decode_response e.0)) table

abbrev texts : (ℕ → String → Text) → List (ℕ × String) → List (Option Text)
texts text table = map (λ e. some (text e.0 e.1)) table

-- The two packages list the same codes, and package legacy decodes each code that package tpm2
-- lists to the error with the code's own text: a format-0 error, a warning, or an error of the
-- handle 0.
pub decode_response-listed :
    (legacy_texts fmt0_descs ≡ texts error_text fmt0_msg)
    × (legacy_texts warn_descs ≡ texts warning_text warn_msg)
    × (legacy_texts fmt1_descs ≡ texts (handle_text 0) fmt1_msg)
    × (legacy_codes 0x100 fmt0_descs ≡ codes fmt0_msg)
    × (legacy_codes 0x900 warn_descs ≡ codes warn_msg)
    × (legacy_codes 0x80 fmt1_descs ≡ codes fmt1_msg)
unfolding error_message decode_response
decode_response-listed = (refl, refl, refl, refl, refl, refl)
