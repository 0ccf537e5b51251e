-- ===== src/Legacy/Signature/RoundTrip.antt =====
-- Signatures are read back.
use go_tpm.Base.{
  ℕ, zero, suc, ◌+◌, ◌*◌, ◌/◌, ◌%◌, ◌^◌, ◌<◌, ◌≤◌, ◌≡◌, ◌⊎◌, refl, ap, ◌∙◌, arith, true, ◌||◌, List,
  [], ◌∷◌, ◌++◌, append_assoc, append-nil, none, some, ◌==◌, length, inl, inr, Bool-cases,
}
use go_tpm.Base.Bytes.{put_be, get_be, be_from}
use go_tpm.Base.Outcome.{ok}
use go_tpm.Tpm2.Reflect.Types.{w16}
use go_tpm.Tpmutil.Encoding.{pack_values, pack_value}
use go_tpm.Legacy.Wire.{pack}
use go_tpm.Legacy.Wire.Back.{ReadsBack, unpack_num-put_be, unpack_bytes-put_be}
use go_tpm.Legacy.Algorithm.{alg_rsassa, alg_rsapss, alg_ecdsa}
use go_tpm.Legacy.Signature.{
  Signature, SignatureRsa, SignatureEcc, big_bytes, big_bytes_from, encode_signature,
  encode_signature_body, decode_signature, decode_signature_body,
}

-- The bytes of a number stand for it.
get_be-from :
    (fuel n : ℕ) (acc : List ℕ) → n ≤ fuel → get_be (big_bytes_from fuel acc n) ≡ be_from n acc
unfolding big_bytes_from get_be
get_be-from zero n acc h = (let z : 0 ≡ n = omega (arith, h) in ap (λ k. be_from k acc) z)
get_be-from (suc fuel) n acc h = elim (Bool-cases (n == 0)) [
  | inl e ↦ (let z : 0 ≡ n = ground (arith, e) in rw e (ap (λ k. be_from k acc) z))
  | inr e ↦
      let smaller : n / 256 ≤ fuel = ground (arith, e, h) in
      let whole : n / 256 * 256 + n % 256 ≡ n = omega arith in
      rw e (get_be-from fuel (n / 256) ((n % 256) ∷ acc) smaller ∙ ap (λ k. be_from k acc) whole)
]

get_be-big_bytes : (n : ℕ) → get_be (big_bytes n) ≡ n
unfolding big_bytes be_from
get_be-big_bytes n = get_be-from n n [] (omega arith)

-- A signature of one of the algorithms, with what the algorithm needs and no more.
pub data Made : Type 0 where
  rsassa : SignatureRsa → Made
  rsapss : SignatureRsa → Made
  ecdsa : SignatureEcc → Made

abbrev pub signature_of : Made → Signature
signature_of (rsassa x) = record { alg = alg_rsassa; rsa = some x; ecc = none }
signature_of (rsapss x) = record { alg = alg_rsapss; rsa = some x; ecc = none }
signature_of (ecdsa x) = record { alg = alg_ecdsa; rsa = none; ecc = some x }

abbrev pub ValidRsaSignature : SignatureRsa → Type 0
ValidRsaSignature x = (x.hash_alg < 2 ^ 16) × (length x.signature < 2 ^ 16)

abbrev pub ValidMade : Made → Type 0
ValidMade (rsassa x) = ValidRsaSignature x
ValidMade (rsapss x) = ValidRsaSignature x
ValidMade (ecdsa x) =
    (x.hash_alg < 2 ^ 16) × (length (big_bytes x.r) < 2 ^ 16) × (length (big_bytes x.s) < 2 ^ 16)

rsa_back :
    (alg : ℕ) (x : SignatureRsa)
    → (alg ≡ alg_rsassa) ⊎ (alg ≡ alg_rsapss)
    → ValidRsaSignature x
    → ReadsBack
        (encode_signature (record { alg = alg; rsa = some x; ecc = none }))
        decode_signature
        (record { alg = alg; rsa = some x; ecc = none })
unfolding encode_signature encode_signature_body decode_signature decode_signature_body pack
    pack_values pack_value
rsa_back alg x known (hash, signature) =
    let chosen : (alg == alg_rsassa || alg == alg_rsapss) ≡ true = one_of known in
    let small : alg < 2 ^ 16 = below known in
    (
      (put_be 2 alg ++ [])
          ++ ((put_be 2 x.hash_alg ++ ((put_be 2 (length x.signature) ++ x.signature) ++ []))
              ++ []),
      rw chosen,
      λ rest. simp (
        append_assoc,
        append-nil,
        unpack_num-put_be w16 alg _ small,
        chosen,
        unpack_num-put_be w16 x.hash_alg _ hash,
        unpack_bytes-put_be x.signature _ signature,
      ),
    )
  where
    one_of :
        (alg ≡ alg_rsassa) ⊎ (alg ≡ alg_rsapss) → (alg == alg_rsassa || alg == alg_rsapss) ≡ true
    one_of (inl e) = rw e
    one_of (inr e) = rw e

    below : (alg ≡ alg_rsassa) ⊎ (alg ≡ alg_rsapss) → alg < 2 ^ 16
    below (inl e) = omega (arith, e)
    below (inr e) = omega (arith, e)

ecc_back :
    (x : SignatureEcc)
    → ValidMade (ecdsa x)
    → ReadsBack
        (encode_signature (signature_of (ecdsa x)))
        decode_signature
        (signature_of (ecdsa x))
unfolding encode_signature encode_signature_body decode_signature decode_signature_body pack
    pack_values pack_value
ecc_back x (hash, r, s) = (
  (put_be 2 alg_ecdsa ++ [])
      ++ (put_be 2 x.hash_alg
          ++ ((put_be 2 (length (big_bytes x.r)) ++ big_bytes x.r)
              ++ ((put_be 2 (length (big_bytes x.s)) ++ big_bytes x.s) ++ []))),
  refl,
  λ rest. simp (
    append_assoc,
    append-nil,
    unpack_num-put_be w16 alg_ecdsa _ (omega arith),
    unpack_num-put_be w16 x.hash_alg _ hash,
    unpack_bytes-put_be (big_bytes x.r) _ r,
    unpack_bytes-put_be (big_bytes x.s) _ s,
    get_be-big_bytes x.r,
    get_be-big_bytes x.s,
  ),
)

-- A signature of RSASSA, RSAPSS or ECDSA, whose hash algorithm has 16 bits and whose parts have fewer
-- than 65536 bytes, is encoded with no error and decoded back, whatever follows it; the numbers of
-- an ECDSA signature are written with no leading zeros.
pub decode_signature-encode_signature :
    (m : Made) (rest : List ℕ)
    → ValidMade m
    → (b : List ℕ) × (encode_signature (signature_of m) ≡ ok b)
      × (decode_signature (b ++ rest) ≡ ok (signature_of m, rest))
decode_signature-encode_signature (rsassa x) rest v =
    let (b, e, r) = rsa_back alg_rsassa x (inl refl) v in (b, e, r rest)
decode_signature-encode_signature (rsapss x) rest v =
    let (b, e, r) = rsa_back alg_rsapss x (inr refl) v in (b, e, r rest)
decode_signature-encode_signature (ecdsa x) rest v = let (b, e, r) = ecc_back x v in (b, e, r rest)
