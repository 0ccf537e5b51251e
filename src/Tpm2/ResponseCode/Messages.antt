-- ===== src/Tpm2/ResponseCode/Messages.antt =====
-- tpm2/errors.go: the Error methods. A message is what is put into its text.
use go_tpm.Base.{ℕ, Option, none, some, if◌then◌else◌}
use go_tpm.Tpm2.ResponseCode.{Subject, Fmt1Error, is_fmt0_error, is_fmt1_error, is_warning}
use go_tpm.Tpm2.ResponseCode.Descriptions.{ErrorDesc, find}
use go_tpm.Tpm2.ResponseCode.Tables.Fmt0.{fmt0_descs}
use go_tpm.Tpm2.ResponseCode.Tables.Fmt1.{fmt1_descs}
use go_tpm.Tpm2.ResponseCode.Tables.Warnings.{warn_descs}

pub data Message : Type 0 where
  -- "name: description"
  described : (desc : ErrorDesc) → Message
  -- "name (subject index): description"
  described_fmt1 : (desc : ErrorDesc) (subject : Subject) (index : ℕ) → Message
  unknown_fmt1 : (subject : Subject) (index canonical : ℕ) → Message
  unknown_fmt0 unknown_warning unrecognized : (code : ℕ) → Message

abbrev pub describe : Option ErrorDesc → Message → Message
describe none unknown = unknown
describe (some desc) unknown = described desc

abbrev pub describe_fmt1 : Option ErrorDesc → Fmt1Error → Message
describe_fmt1 none e = unknown_fmt1 e.subject e.index e.canonical
describe_fmt1 (some desc) e = described_fmt1 desc e.subject e.index

-- `TPMFmt1Error.Error`
unfoldable pub fmt1_message : Fmt1Error → Message
fmt1_message e = describe_fmt1 (find e.canonical fmt1_descs) e

-- `TPMRC.Error`
unfoldable pub message : ℕ → Message
message r = elim (is_fmt1_error r) [
  | some e ↦ fmt1_message e
  | none ↦
      if is_fmt0_error r
      then describe (find r fmt0_descs) (unknown_fmt0 r)
      else if is_warning r
      then describe (find r warn_descs) (unknown_warning r)
      else unrecognized r
]
