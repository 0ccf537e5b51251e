-- ===== src/Legacy/Attest.antt =====
-- AttestationData, the infos that it may hold, CreationData and TPMLDigest of
-- legacy/tpm2/structures.go. The decoders return an error with no value.
pub mod RoundTrip
pub mod Digests
use go_tpm.Base.{
  ℕ, zero, suc, ◌%◌, ◌^◌, Bool, not, List, [], ◌∷◌, ◌++◌, Option, none, some, ◌==◌, if◌then◌else◌,
  length,
}
use go_tpm.Base.Outcome.{ok, err, panic, ◌>>=◌}
use go_tpm.Tpm2.Reflect.Types.{w8, w16, w32, w64}
use go_tpm.Tpmutil.Encoding.{value, no_values, num, u16_bytes, struct}
use go_tpm.Legacy.Wire.{
  Res, pack, unpack_num, unpack_bytes, incorrect_magic, unsupported_attestation, wrong_digest_count,
}
use go_tpm.Legacy.Algorithm.{Hashes}
use go_tpm.Legacy.Name.{Name, encode_name, decode_name}
use go_tpm.Legacy.Selection.{Selection, encode_selections, decode_one_selection}

pub record ClockInfo : Type 0 where
  pub clock : ℕ
  pub reset_count : ℕ
  pub restart_count : ℕ
  pub safe : ℕ

pub record CreationInfo : Type 0 where
  pub name : Name
  pub opaque_digest : List ℕ

pub record CertifyInfo : Type 0 where
  pub name : Name
  pub qualified_name : Name

pub record QuoteInfo : Type 0 where
  pub pcr_selection : Selection
  pub pcr_digest : List ℕ

pub record AttestationData : Type 0 where
  pub magic : ℕ
  pub type : ℕ
  pub qualified_signer : Name
  pub extra_data : List ℕ
  pub clock_info : ClockInfo
  pub firmware_version : ℕ
  pub certify_info : Option CertifyInfo
  pub quote_info : Option QuoteInfo
  pub creation_info : Option CreationInfo

pub record CreationData : Type 0 where
  pub pcr_selection : Selection
  pub pcr_digest : List ℕ
  pub locality : ℕ
  pub parent_name_alg : ℕ
  pub parent_name : Name
  pub parent_qualified_name : Name
  pub outside_info : List ℕ

abbrev pub attest_certify : ℕ
attest_certify = 0x8017

abbrev pub attest_quote : ℕ
attest_quote = 0x8018

abbrev pub attest_creation : ℕ
attest_creation = 0x801a

abbrev pub generated_value : ℕ
generated_value = 0xff544347

-- The methods encode of the infos; a nil pointer is read.
unfoldable pub encode_creation_info : Option CreationInfo → Res (List ℕ)
encode_creation_info none = panic
encode_creation_info (some i) = do
  n ← encode_name i.name
  d ← pack (value (u16_bytes i.opaque_digest) no_values)
  ok (n ++ d)

unfoldable pub encode_certify_info : Option CertifyInfo → Res (List ℕ)
encode_certify_info none = panic
encode_certify_info (some i) = do
  n ← encode_name i.name
  qn ← encode_name i.qualified_name
  ok (n ++ qn)

unfoldable pub encode_quote_info : Option QuoteInfo → Res (List ℕ)
encode_quote_info none = panic
encode_quote_info (some i) = do
  sel ← encode_selections (i.pcr_selection ∷ [])
  digest ← pack (value (u16_bytes i.pcr_digest) no_values)
  ok (sel ++ digest)

-- `AttestationData.Encode`
unfoldable pub encode_info : AttestationData → Res (List ℕ)
unfolding encode_creation_info encode_certify_info encode_quote_info
encode_info a =
    if a.type == attest_certify
    then encode_certify_info a.certify_info
    else if a.type == attest_creation
    then encode_creation_info a.creation_info
    else if a.type == attest_quote
    then encode_quote_info a.quote_info
    else err unsupported_attestation

abbrev pub clock_values : ClockInfo → go_tpm.Tpmutil.Encoding.Value
clock_values c = struct (
    value (num w64 c.clock) (
      value (num w32 c.reset_count)
        (value (num w32 c.restart_count) (value (num w8 c.safe) no_values))))

unfoldable pub encode_attestation_data : AttestationData → Res (List ℕ)
unfolding encode_info
encode_attestation_data a = do
  head ← pack (value (num w32 a.magic) (value (num w16 a.type) no_values))
  signer ← encode_name a.qualified_signer
  tail ← pack (
      value (u16_bytes a.extra_data)
        (value (clock_values a.clock_info) (value (num w64 a.firmware_version) no_values)))
  info ← encode_info a
  ok (head ++ (signer ++ (tail ++ info)))

-- `EncodeCreationData`
unfoldable pub encode_creation_data : CreationData → Res (List ℕ)
encode_creation_data c = do
  sel ← encode_selections (c.pcr_selection ∷ [])
  d ← pack (
      value (u16_bytes c.pcr_digest)
        (value (num w8 c.locality) (value (num w16 c.parent_name_alg) no_values)))
  pn ← encode_name c.parent_name
  pqn ← encode_name c.parent_qualified_name
  o ← pack (value (u16_bytes c.outside_info) no_values)
  ok (sel ++ (d ++ (pn ++ (pqn ++ o))))

-- `UnpackBuf` of a pointer to ClockInfo.
unfoldable pub unpack_clock : List ℕ → Res (ClockInfo × List ℕ)
unpack_clock b = do
  (clock, b₁) ← unpack_num w64 b
  (reset, b₂) ← unpack_num w32 b₁
  (restart, b₃) ← unpack_num w32 b₂
  (safe, b₄) ← unpack_num w8 b₃
  ok (record { clock = clock; reset_count = reset; restart_count = restart; safe = safe }, b₄)

module _ (hashes : Hashes) where
  -- `decodeCreationInfo`, `decodeCertifyInfo` and `decodeQuoteInfo`
  unfoldable pub decode_creation_info : List ℕ → Res (CreationInfo × List ℕ)
  decode_creation_info b = do
    (n, b₁) ← decode_name hashes b
    (d, b₂) ← unpack_bytes b₁
    ok (record { name = n; opaque_digest = d }, b₂)

  unfoldable pub decode_certify_info : List ℕ → Res (CertifyInfo × List ℕ)
  decode_certify_info b = do
    (n, b₁) ← decode_name hashes b
    (qn, b₂) ← decode_name hashes b₁
    ok (record { name = n; qualified_name = qn }, b₂)

  abbrev pub decode_quote_info : List ℕ → Res (QuoteInfo × List ℕ)
  decode_quote_info b = do
    (sel, b₁) ← decode_one_selection b
    (d, b₂) ← unpack_bytes b₁
    ok (record { pcr_selection = sel; pcr_digest = d }, b₂)

  -- The cases of `DecodeAttestationData`, on data without an info.
  unfoldable pub decode_info : AttestationData → List ℕ → Res (AttestationData × List ℕ)
  decode_info a b =
      if a.type == attest_certify
      then (do (i, rest) ← decode_certify_info b; ok (record a { certify_info = some i }, rest))
      else if a.type == attest_creation
      then (do (i, rest) ← decode_creation_info b; ok (record a { creation_info = some i }, rest))
      else if a.type == attest_quote
      then (do (i, rest) ← decode_quote_info b; ok (record a { quote_info = some i }, rest))
      else err unsupported_attestation

  -- What follows the magic value.
  unfoldable pub read_attested : (magic type : ℕ) → List ℕ → Res (AttestationData × List ℕ)
  unfolding decode_info unpack_clock
  read_attested magic type b = do
    (n, b₁) ← decode_name hashes b
    (extra, b₂) ← unpack_bytes b₁
    (clock, b₃) ← unpack_clock b₂
    (firmware, b₄) ← unpack_num w64 b₃
    decode_info
        (record {
          magic = magic;
          type = type;
          qualified_signer = n;
          extra_data = extra;
          clock_info = clock;
          firmware_version = firmware;
          certify_info = none;
          quote_info = none;
          creation_info = none;
        })
        b₄

  unfoldable pub read_attestation_data : List ℕ → Res (AttestationData × List ℕ)
  unfolding read_attested
  read_attestation_data b = do
    (magic, b₁) ← unpack_num w32 b
    (type, b₂) ← unpack_num w16 b₁
    if not (magic == generated_value) then err incorrect_magic else read_attested magic type b₂

  -- `DecodeAttestationData`
  unfoldable pub decode_attestation_data : List ℕ → Res AttestationData
  unfolding read_attestation_data
  decode_attestation_data b = do (a, rest) ← read_attestation_data b; ok a

  -- `DecodeCreationData`
  unfoldable pub decode_creation_data : List ℕ → Res CreationData
  decode_creation_data b = do
    (sel, b₁) ← decode_one_selection b
    (d, b₂) ← unpack_bytes b₁
    (locality, b₃) ← unpack_num w8 b₂
    (alg, b₄) ← unpack_num w16 b₃
    (pn, b₅) ← decode_name hashes b₄
    (pqn, b₆) ← decode_name hashes b₅
    (o, b₇) ← unpack_bytes b₆
    ok (record {
      pcr_selection = sel;
      pcr_digest = d;
      locality = locality;
      parent_name_alg = alg;
      parent_name = pn;
      parent_qualified_name = pqn;
      outside_info = o;
    })

-- `TPMLDigest.Encode`
unfoldable pub encode_items : List (List ℕ) → Res (List ℕ)
encode_items [] = ok []
encode_items (d ∷ ds) = do
  b ← pack (value (u16_bytes d) no_values)
  bs ← encode_items ds
  ok (b ++ bs)

unfoldable pub encode_digests : List (List ℕ) → Res (List ℕ)
unfolding encode_items
encode_digests ds = do
  n ← pack (value (num w32 (length ds)) no_values)
  bs ← encode_items ds
  ok (n ++ bs)

-- `DecodeTPMLDigest`: digests are read while there are bytes, with fuel for the number of bytes, as
-- every digest takes two of them.
unfoldable pub decode_items : ℕ → List ℕ → Res (List (List ℕ))
decode_items fuel [] = ok []
decode_items zero (x ∷ b) = panic
decode_items (suc fuel) (x ∷ b) = do
  (d, rest) ← unpack_bytes (x ∷ b)
  ds ← decode_items fuel rest
  ok (d ∷ ds)

unfoldable pub decode_digests : List ℕ → Res (List (List ℕ))
unfolding decode_items
decode_digests b = do
  (n, rest) ← unpack_num w32 b
  ds ← decode_items (length rest) rest
  if n == length ds % 2 ^ 32 then ok ds else err wrong_digest_count
