-- ===== src/Legacy/Attest/RoundTrip.antt =====
-- Attestation data of creations and certifications, and lists of digests, are read back.
use go_tpm.Base.{
  ℕ, ◌^◌, ◌<◌, ◌≡◌, refl, arith, List, [], ◌++◌, append_assoc, append-nil, none, some, length,
}
use go_tpm.Base.Bytes.{put_be}
use go_tpm.Base.Outcome.{ok}
use go_tpm.Tpm2.Reflect.Types.{w8, w16, w32, w64}
use go_tpm.Tpmutil.Encoding.{pack_values, pack_value}
use go_tpm.Legacy.Wire.{pack}
use go_tpm.Legacy.Wire.Back.{ReadsBack, unpack_num-put_be, unpack_bytes-put_be}
use go_tpm.Legacy.Algorithm.{Hashes}
use go_tpm.Legacy.Name.{Name}
use go_tpm.Legacy.Name.RoundTrip.{ValidName, name_back}
use go_tpm.Legacy.Attest.{
  ClockInfo, CreationInfo, CertifyInfo, AttestationData, attest_certify, attest_creation,
  generated_value, encode_creation_info, decode_creation_info, encode_certify_info,
  decode_certify_info, encode_info, decode_info, encode_attestation_data, unpack_clock,
  read_attested, read_attestation_data, decode_attestation_data,
}

abbrev pub ValidClock : ClockInfo → Type 0
ValidClock c =
    (c.clock < 2 ^ 64) × (c.reset_count < 2 ^ 32) × (c.restart_count < 2 ^ 32) × (c.safe < 2 ^ 8)

-- The info of an attestation, which says its type.
pub data Info : Type 0 where
  certified : CertifyInfo → Info
  created : CreationInfo → Info

-- What stands in front of the info.
pub record Head : Type 0 where
  pub signer : Name
  pub extra : List ℕ
  pub clock : ClockInfo
  pub firmware : ℕ

abbrev pub info_type : Info → ℕ
info_type (certified i) = attest_certify
info_type (created i) = attest_creation

abbrev pub bare : Head → ℕ → AttestationData
bare h type = record {
  magic = generated_value;
  type = type;
  qualified_signer = h.signer;
  extra_data = h.extra;
  clock_info = h.clock;
  firmware_version = h.firmware;
  certify_info = none;
  quote_info = none;
  creation_info = none;
}

abbrev pub attestation : Head → Info → AttestationData
attestation h (certified i) = record (bare h attest_certify) { certify_info = some i }
attestation h (created i) = record (bare h attest_creation) { creation_info = some i }

clock_back :
    (c : ClockInfo)
    → ValidClock c
    → (rest : List ℕ)
    → unpack_clock (
        put_be 8 c.clock
        ++ (put_be 4 c.reset_count ++ (put_be 4 c.restart_count ++ (put_be 1 c.safe ++ rest))))
      ≡ ok (c, rest)
unfolding unpack_clock
clock_back c (clock, reset, restart, safe) rest = simp (
  unpack_num-put_be w64 c.clock _ clock,
  unpack_num-put_be w32 c.reset_count _ reset,
  unpack_num-put_be w32 c.restart_count _ restart,
  unpack_num-put_be w8 c.safe _ safe,
)

module _ (hashes : Hashes) where
  creation_back :
      (i : CreationInfo)
      → ValidName hashes i.name
      → length i.opaque_digest < 2 ^ 16
      → ReadsBack (encode_creation_info (some i)) (decode_creation_info hashes) i
  unfolding encode_creation_info decode_creation_info pack pack_values pack_value
  creation_back i v digest =
      let (b, e, r) = name_back hashes i.name v in
      (
        b ++ ((put_be 2 (length i.opaque_digest) ++ i.opaque_digest) ++ []),
        simp e,
        λ rest. simp (append_assoc, append-nil, r _, unpack_bytes-put_be i.opaque_digest _ digest),
      )

  certify_back :
      (i : CertifyInfo)
      → ValidName hashes i.name
      → ValidName hashes i.qualified_name
      → ReadsBack (encode_certify_info (some i)) (decode_certify_info hashes) i
  unfolding encode_certify_info decode_certify_info
  certify_back i v v' =
      let (b, e, r) = name_back hashes i.name v in
      let (b', e', r') = name_back hashes i.qualified_name v' in
      (b ++ b', simp (e, e'), λ rest. simp (append_assoc, r _, r' _))

  abbrev pub ValidInfo : Info → Type 0
  ValidInfo (certified i) = ValidName hashes i.name × ValidName hashes i.qualified_name
  ValidInfo (created i) = ValidName hashes i.name × (length i.opaque_digest < 2 ^ 16)

  abbrev pub ValidHead : Head → Type 0
  ValidHead h =
      ValidName hashes h.signer
      × (length h.extra < 2 ^ 16)
      × ValidClock h.clock
      × (h.firmware < 2 ^ 64)

  info_back :
      (h : Head) (i : Info)
      → ValidInfo i
      → ReadsBack
          (encode_info (attestation h i))
          (decode_info hashes (bare h (info_type i)))
          (attestation h i)
  unfolding encode_info decode_info
  info_back h (certified i) (v, v') =
      let (b, e, r) = certify_back i v v' in (b, e, λ rest. rw (r rest))
  info_back h (created i) (v, digest) =
      let (b, e, r) = creation_back i v digest in (b, e, λ rest. rw (r rest))

  head_of :
      (h : Head) (i : Info)
      → ((attestation h i).magic ≡ generated_value)
        × ((attestation h i).type ≡ info_type i)
        × ((attestation h i).qualified_signer ≡ h.signer)
        × ((attestation h i).extra_data ≡ h.extra)
        × ((attestation h i).clock_info ≡ h.clock)
        × ((attestation h i).firmware_version ≡ h.firmware)
  head_of h (certified i) = (refl, refl, refl, refl, refl, refl)
  head_of h (created i) = (refl, refl, refl, refl, refl, refl)

  type_small : (i : Info) → info_type i < 2 ^ 16
  type_small (certified i) = omega arith
  type_small (created i) = omega arith

  attestation_back :
      (h : Head) (i : Info)
      → ValidHead h
      → ValidInfo i
      → ReadsBack
          (encode_attestation_data (attestation h i))
          (read_attestation_data hashes)
          (attestation h i)
  unfolding encode_attestation_data read_attestation_data read_attested pack pack_values pack_value
  attestation_back h i (signer, extra, clock, firmware) v =
      let (s₁, s₂, s₃, s₄, s₅, s₆) = head_of h i in
      let (n, en, rn) = name_back hashes h.signer signer in
      let (b, e, r) = info_back h i v in
      let c = h.clock in
      (
        (put_be 4 generated_value ++ (put_be 2 (info_type i) ++ []))
            ++ (n
                ++ (((put_be 2 (length h.extra) ++ h.extra)
                      ++ ((put_be 8 c.clock
                            ++ (put_be 4 c.reset_count
                                ++ (put_be 4 c.restart_count ++ (put_be 1 c.safe ++ []))))
                          ++ (put_be 8 h.firmware ++ [])))
                    ++ b)),
        rw (e, s₁, s₂, s₃, s₄, s₅, s₆, en),
        λ rest. simp (
          append_assoc,
          append-nil,
          unpack_num-put_be w32 generated_value _ (omega arith),
          unpack_num-put_be w16 (info_type i) _ (type_small i),
          rn _,
          unpack_bytes-put_be h.extra _ extra,
          clock_back c clock _,
          unpack_num-put_be w64 h.firmware _ firmware,
          r rest,
        ),
      )

  -- The attestation of a certification or a creation with the magic value, whose names are valid, whose
  -- numbers fit their widths and whose byte slices have fewer than 65536 bytes, is encoded with no
  -- error and decoded back, whatever follows it.
  pub decode_attestation_data-encode_attestation_data :
      (h : Head) (i : Info) (rest : List ℕ)
      → ValidHead h
      → ValidInfo i
      → (b : List ℕ) × (encode_attestation_data (attestation h i) ≡ ok b)
        × (decode_attestation_data hashes (b ++ rest) ≡ ok (attestation h i))
  unfolding decode_attestation_data
  decode_attestation_data-encode_attestation_data h i rest v v' =
      let (b, e, r) = attestation_back h i v v' in (b, e, rw (r rest))
