-- ===== src/Legacy/Name/RoundTrip.antt =====
-- Names are read back, and what is read of a digest that is cut off.
use go_tpm.Base.{
  ℕ, zero, suc, ◌+◌, ◌-◌, ◌^◌, ◌<◌, ◌≤◌, ◌≡◌, refl, ap, ◌∙◌, arith, List, [], ◌∷◌, ◌++◌,
  append_assoc, append-nil, Option, none, some, ==_ne, ==_iff, length, length-append, take, drop,
  replicate,
}
use go_tpm.Base.Bytes.{put_be, length-put_be}
use go_tpm.Base.Outcome.{ok}
use go_tpm.Tpm2.Reflect.Types.{w16, w32}
use go_tpm.Tpmutil.Encoding.{pack_values, pack_value}
use go_tpm.Legacy.Wire.{pack, read_into}
use go_tpm.Legacy.Wire.Back.{ReadsBack, unpack_num-put_be, unpack_bytes-put_be}
use go_tpm.Legacy.Algorithm.{Hashes, CryptoHash, algorithm_hash}
use go_tpm.Legacy.Name.{
  HashValue, Name, digest_named, encode_hash_value, encode_entity, encode_name, decode_hash_value,
  decode_entity, decode_name,
}

take-all : (n : ℕ) (b : List ℕ) → length b ≤ n → take n b ≡ b
take-all zero [] h = refl
take-all zero (x ∷ b) h = absurd (omega (arith, h))
take-all (suc n) [] h = refl
take-all (suc n) (x ∷ b) h = ap (◌∷◌ x) (take-all n b (omega (arith, h)))

drop-all : (n : ℕ) (b : List ℕ) → length b ≤ n → drop n b ≡ []
drop-all zero [] h = refl
drop-all zero (x ∷ b) h = absurd (omega (arith, h))
drop-all (suc n) [] h = refl
drop-all (suc n) (x ∷ b) h = drop-all n b (omega (arith, h))

-- A read of more bytes than there are is filled up with zeros.
pub read_into-short :
    (n : ℕ) (b : List ℕ)
    → 0 < length b
    → length b ≤ n
    → read_into n b ≡ ok (b ++ replicate (n - length b) 0, [])
unfolding read_into
read_into-short zero b some_bytes short = absurd (omega (arith, some_bytes, short))
read_into-short (suc n) [] some_bytes short = absurd (omega (arith, some_bytes))
read_into-short (suc n) (x ∷ b) some_bytes short =
    rw (take-all n b (omega (arith, short)), drop-all n b (omega (arith, short)))

module _ (hashes : Hashes) where
  -- A digest of the algorithm's size, or one that is cut off.
  decode_hash_value-short :
      (v : HashValue) (h : CryptoHash)
      → v.alg < 2 ^ 16
      → algorithm_hash hashes v.alg ≡ ok h
      → 0 < length v.digest
      → length v.digest ≤ hashes.size h
      → decode_hash_value hashes (put_be 2 v.alg ++ v.digest)
        ≡ ok (record v { digest = v.digest ++ replicate (hashes.size h - length v.digest) 0 })
  unfolding decode_hash_value
  decode_hash_value-short v h small known some_bytes short = simp (
    unpack_num-put_be w16 v.alg _ small,
    known,
    read_into-short (hashes.size h) v.digest some_bytes short,
  )

  abbrev filled : HashValue → ℕ → Name
  filled v n = digest_named (record v { digest = v.digest ++ replicate (n - length v.digest) 0 })

  short_back :
      (v : HashValue) (h : CryptoHash)
      → v.alg < 2 ^ 16
      → algorithm_hash hashes v.alg ≡ ok h
      → 3 ≤ length v.digest
      → length v.digest ≤ hashes.size h
      → hashes.size h < 2 ^ 15
      → ReadsBack (encode_name (digest_named v)) (decode_name hashes) (filled v (hashes.size h))
  unfolding encode_name encode_entity encode_hash_value decode_name decode_entity pack pack_values
      pack_value
  short_back v h small known long short bounded =
      let written = put_be 2 v.alg ++ v.digest in
      let size : length written ≡ 2 + length v.digest =
        omega (arith, length-append (put_be 2 v.alg) v.digest, length-put_be 2 v.alg) in
      (
        put_be 2 (length written) ++ written,
        simp append-nil,
        λ rest. simp (
          append_assoc (put_be 2 (length written)) written rest,
          unpack_bytes-put_be written rest (omega (arith, size, short, bounded)),
          ==_ne (length written) 0 (λ e. omega (arith, size, e)),
          ==_ne (length written) 4 (λ e. omega (arith, size, e, long)),
          decode_hash_value-short v h small known (omega (arith, long)) short,
        ),
      )

  -- The digest of a name that is written with fewer bytes than its algorithm has, but with at least 3,
  -- is read as if zeros followed, when the algorithm is available: no error is returned.
  pub decode_name-short :
      (v : HashValue) (h : CryptoHash) (rest : List ℕ)
      → v.alg < 2 ^ 16
      → algorithm_hash hashes v.alg ≡ ok h
      → 3 ≤ length v.digest
      → length v.digest ≤ hashes.size h
      → hashes.size h < 2 ^ 15
      → (b : List ℕ) × (encode_name (digest_named v) ≡ ok b)
        × (decode_name hashes (b ++ rest)
            ≡ ok (
              digest_named
                  (record v { digest = v.digest ++ replicate (hashes.size h - length v.digest) 0 }),
              rest,
            ))
  decode_name-short v h rest small known long short bounded =
      let (b, e, r) = short_back v h small known long short bounded in (b, e, r rest)

  -- A handle of 32 bits, or a digest of the size of an available hash algorithm.
  abbrev pub ValidFields : Option ℕ → Option HashValue → Type 0
  ValidFields none none = Unit {0}
  ValidFields (some h) none = h < 2 ^ 32
  ValidFields none (some v) =
      (h : CryptoHash) × (v.alg < 2 ^ 16)
      × (algorithm_hash hashes v.alg ≡ ok h)
      × (length v.digest ≡ hashes.size h)
      × (3 ≤ hashes.size h)
      × (hashes.size h < 2 ^ 15)
  ValidFields (some h) (some v) = ⊥

  abbrev pub ValidName : Name → Type 0
  ValidName n = ValidFields n.handle n.digest

  whole :
      (v : HashValue) (n : ℕ)
      → length v.digest ≡ n
      → v.digest ++ replicate (n - length v.digest) 0 ≡ v.digest
  whole v n e =
      let zero_left : n - length v.digest ≡ 0 = omega (arith, e) in
      ap (λ k. v.digest ++ replicate k 0) zero_left ∙ append-nil v.digest

  fields_back :
      (h : Option ℕ) (d : Option HashValue)
      → ValidFields h d
      → ReadsBack
          (encode_name (record { handle = h; digest = d }))
          (decode_name hashes)
          (record { handle = h; digest = d })
  unfolding encode_name encode_entity decode_name decode_entity pack pack_values pack_value
  fields_back none none v = (
    (put_be 2 0 ++ []) ++ [],
    refl,
    λ rest. simp (append_assoc, append-nil, unpack_bytes-put_be [] rest (omega arith)),
  )
  fields_back (some h) none v =
      let b = put_be 4 h ++ [] in
      let size : length b ≡ 4 = omega (arith, length-append (put_be 4 h) [], length-put_be 4 h) in
      (
        (put_be 2 (length b) ++ b) ++ [],
        refl,
        λ rest. simp (
          append_assoc (put_be 2 (length b) ++ b) [] rest,
          append_assoc (put_be 2 (length b)) b rest,
          unpack_bytes-put_be b rest (omega (arith, size)),
          ==_ne (length b) 0 (λ e. omega (arith, size, e)),
          (==_iff (length b) 4).1 size,
          unpack_num-put_be w32 h [] v,
        ),
      )
  fields_back none (some v) (h, small, known, size, long, bounded) =
      let (b, e, r) =
        short_back v h small known (omega (arith, size, long)) (omega (arith, size)) bounded in
      (
        b,
        e,
        λ rest.
            r rest
            ∙ ap (λ x. ok (digest_named (record v { digest = x }), rest))
                (whole v (hashes.size h) size),
      )
  fields_back (some h) (some v) none_valid = absurd none_valid

  pub name_back : (n : Name) → ValidName n → ReadsBack (encode_name n) (decode_name hashes) n
  name_back n v = fields_back n.handle n.digest v
