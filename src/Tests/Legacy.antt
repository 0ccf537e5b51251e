-- ===== src/Tests/Legacy.antt =====
-- The structures of legacy/tpm2/structures.go on concrete values.
use go_tpm.Base.{
  ℕ, ◌≡◌, refl, true, List, [], ◌∷◌, ◌++◌, none, some, inl, inr, length, replicate, arith,
}
use go_tpm.Base.Outcome.{ok}
use go_tpm.Legacy.Algorithm.{Hashes, CryptoHash, sha256, alg_hmac, hash_in, algorithm_hash}
use go_tpm.Legacy.Public.{KeyedHashParams, RsaParams, encode_public, decode_public}
use go_tpm.Legacy.Public.RoundTrip.{with_parameters, keyed_hash, rsa, decode_public-encode_public}
use go_tpm.Legacy.Template.{bytes_equal, matches_template, parameters_match}
use go_tpm.Legacy.Template.Encodings.{with_unique, matches_template-encode_public}
use go_tpm.Legacy.Name.{HashValue, encode_name, decode_name, digest_named}
use go_tpm.Legacy.Name.RoundTrip.{decode_name-short}
use go_tpm.Legacy.Selection.{Selection, encode_selections, decode_selections}
use go_tpm.Legacy.Selection.RoundTrip.{
  SameSelections, decode_selections-encode_selections, encode_selections-empty,
}
use go_tpm.Legacy.Attest.{encode_attestation_data, decode_attestation_data}
use go_tpm.Legacy.Attest.RoundTrip.{
  Head, Info, certified, attestation, decode_attestation_data-encode_attestation_data,
}

abbrev size_of_hash : CryptoHash → ℕ
size_of_hash h = 32

abbrev hashes : Hashes
hashes = record { available = λ h. true; size = size_of_hash; sum = λ h b. replicate 32 (length b) }

-- an HMAC key, and an RSA key with AES
abbrev hmac_key : KeyedHashParams
hmac_key = record { alg = alg_hmac; hash = 11; kdf = 0; unique = 7 ∷ 8 ∷ [] }

decode_public-encode_public_example :
    (b : List ℕ) × (encode_public (with_parameters 11 0x40072 (1 ∷ []) (keyed_hash hmac_key))
      ≡ ok b)
    × (decode_public (b ++ (9 ∷ []))
        ≡ ok (with_parameters 11 0x40072 (1 ∷ []) (keyed_hash hmac_key)))
decode_public-encode_public_example =
    decode_public-encode_public 11 0x40072 (1 ∷ []) (keyed_hash hmac_key) (9 ∷ []) (omega arith)
      (omega arith) (omega arith) (inr (inl (refl, omega arith, refl)), omega arith)

abbrev rsa_key : List ℕ → RsaParams
rsa_key modulus = record {
  symmetric = some (record { alg = 6; key_bits = 128; mode = 0x43 });
  sign = none;
  key_bits = 2048;
  exponent_raw = 0;
  modulus_raw = modulus;
}

rsa_matches_template :
    matches_template
      (with_parameters 11 0x30072 (1 ∷ 2 ∷ []) (rsa (rsa_key (5 ∷ 6 ∷ []))))
      (with_parameters 11 0x30072 (1 ∷ 2 ∷ []) (rsa (rsa_key [])))
    ≡ ok true
unfolding matches_template bytes_equal parameters_match
rsa_matches_template = refl

matches_template-encode_public_example :
    encode_public (
      with_unique
        (with_parameters 11 0x30072 (1 ∷ 2 ∷ []) (rsa (rsa_key (5 ∷ 6 ∷ []))))
        (with_parameters 11 0x30072 (1 ∷ 2 ∷ []) (rsa (rsa_key []))))
    ≡ encode_public (with_parameters 11 0x30072 (1 ∷ 2 ∷ []) (rsa (rsa_key [])))
matches_template-encode_public_example =
    matches_template-encode_public
      (with_parameters 11 0x30072 (1 ∷ 2 ∷ []) (rsa (rsa_key (5 ∷ 6 ∷ []))))
      (with_parameters 11 0x30072 (1 ∷ 2 ∷ []) (rsa (rsa_key []))) rsa_matches_template

-- three bytes of a digest of 32
abbrev cut_digest : HashValue
cut_digest = record { alg = 11; digest = 1 ∷ 2 ∷ 3 ∷ [] }

sha256_known : algorithm_hash hashes 11 ≡ ok sha256
unfolding hash_in
sha256_known = refl

decode_name-short_example :
    (b : List ℕ) × (encode_name (digest_named cut_digest) ≡ ok b)
    × (decode_name hashes (b ++ (9 ∷ []))
        ≡ ok (
          digest_named (record cut_digest { digest = (1 ∷ 2 ∷ 3 ∷ []) ++ replicate 29 0 }),
          9 ∷ [],
        ))
decode_name-short_example =
    decode_name-short hashes cut_digest sha256 (9 ∷ []) (omega arith) sha256_known (omega arith)
      (omega arith) (omega arith)

abbrev sha1_pcrs : Selection
sha1_pcrs = record { hash = 4; pcrs = 9 ∷ 3 ∷ [] }

abbrev no_pcrs : Selection
no_pcrs = record { hash = 11; pcrs = [] }

decode_selections-encode_selections_example :
    (b : List ℕ) × (ss : List Selection) × (encode_selections (sha1_pcrs ∷ []) ≡ ok b)
    × (decode_selections (b ++ []) ≡ ok (ss, []))
    × SameSelections (sha1_pcrs ∷ []) ss
decode_selections-encode_selections_example =
    decode_selections-encode_selections sha1_pcrs [] []
      ((omega arith, (omega arith, (omega arith, tt)), refl), tt) (omega arith)

encode_selections-empty_example :
    encode_selections (sha1_pcrs ∷ no_pcrs ∷ []) ≡ encode_selections []
encode_selections-empty_example =
    encode_selections-empty (sha1_pcrs ∷ []) [] no_pcrs
      ((omega arith, (omega arith, (omega arith, tt)), refl), tt) refl

abbrev attested_head : Head
attested_head = record {
  signer = record { handle = some 0x81000001; digest = none };
  extra = 4 ∷ 5 ∷ [];
  clock = record { clock = 1000; reset_count = 2; restart_count = 3; safe = 1 };
  firmware = 7;
}

abbrev attested : Info
attested = certified (record {
  name = record { handle = some 0x81000002; digest = none };
  qualified_name = record { handle = none; digest = none };
})

decode_attestation_data-encode_attestation_data_example :
    (b : List ℕ) × (encode_attestation_data (attestation attested_head attested) ≡ ok b)
    × (decode_attestation_data hashes (b ++ []) ≡ ok (attestation attested_head attested))
decode_attestation_data-encode_attestation_data_example =
    decode_attestation_data-encode_attestation_data hashes attested_head attested []
      (omega arith, omega arith, (omega arith, omega arith, omega arith, omega arith), omega arith)
      (omega arith, tt)
