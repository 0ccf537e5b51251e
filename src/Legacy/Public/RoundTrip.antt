-- ===== src/Legacy/Public/RoundTrip.antt =====
-- The public areas of keys are read back.
use go_tpm.Base.{
  ℕ, ◌^◌, ◌<◌, ◌≡◌, ◌⊎◌, refl, arith, List, [], ◌++◌, append_assoc, some, inl, inr, length,
}
use go_tpm.Base.Bytes.{put_be}
use go_tpm.Base.Outcome.{ok}
use go_tpm.Tpm2.Reflect.Types.{w16, w32}
use go_tpm.Tpmutil.Encoding.{pack_values, pack_value}
use go_tpm.Legacy.Wire.{pack}
use go_tpm.Legacy.Wire.Back.{ReadsBack, unpack_num-put_be, unpack_bytes-put_be}
use go_tpm.Legacy.Algorithm.{
  alg_null, alg_rsa, alg_ecc, alg_keyed_hash, alg_sym_cipher, alg_hmac, alg_xor,
}
use go_tpm.Legacy.Scheme.RoundTrip.{ValidSym, ValidSig, ValidKdf, sym_back, sig_back, kdf_back}
use go_tpm.Legacy.Public.{
  RsaParams, EccParams, SymCipherParams, KeyedHashParams, Public, public_head, encode_rsa_params,
  decode_rsa_params, encode_ecc_params, decode_ecc_params, encode_sym_cipher_params,
  decode_sym_cipher_params, encode_keyed_hash_alg, decode_keyed_hash_alg, encode_keyed_hash_params,
  decode_keyed_hash_params, encode_parameters, decode_parameters, encode_public, read_public,
  decode_public,
}

abbrev pub ValidRsa : RsaParams → Type 0
ValidRsa p =
    ValidSym p.symmetric
    × ValidSig p.sign
    × (p.key_bits < 2 ^ 16)
    × (p.exponent_raw < 2 ^ 32)
    × (length p.modulus_raw < 2 ^ 16)

rsa_back : (p : RsaParams) → ValidRsa p → ReadsBack (encode_rsa_params (some p)) decode_rsa_params p
unfolding encode_rsa_params decode_rsa_params pack pack_values pack_value
rsa_back p (v₁, v₂, bits, exponent, modulus) =
    let (symmetric, e₁, r₁) = sym_back p.symmetric v₁ in
    let (sign, e₂, r₂) = sig_back p.sign v₂ in
    (
      symmetric
          ++ (sign
              ++ (put_be 2 p.key_bits
                  ++ (put_be 4 p.exponent_raw
                      ++ ((put_be 2 (length p.modulus_raw) ++ p.modulus_raw) ++ [])))),
      rw (e₁, e₂),
      λ rest. simp (
        append_assoc,
        r₁ _,
        r₂ _,
        unpack_num-put_be w16 p.key_bits _ bits,
        unpack_num-put_be w32 p.exponent_raw _ exponent,
        unpack_bytes-put_be p.modulus_raw _ modulus,
      ),
    )

abbrev pub ValidEcc : EccParams → Type 0
ValidEcc p =
    ValidSym p.symmetric
    × ValidSig p.sign
    × (p.curve_id < 2 ^ 16)
    × ValidKdf p.kdf
    × (length p.point.x_raw < 2 ^ 16)
    × (length p.point.y_raw < 2 ^ 16)

ecc_back : (p : EccParams) → ValidEcc p → ReadsBack (encode_ecc_params (some p)) decode_ecc_params p
unfolding encode_ecc_params decode_ecc_params pack pack_values pack_value
ecc_back p (v₁, v₂, curve, v₃, x, y) =
    let (symmetric, e₁, r₁) = sym_back p.symmetric v₁ in
    let (sign, e₂, r₂) = sig_back p.sign v₂ in
    let (kdf, e₃, r₃) = kdf_back p.kdf v₃ in
    (
      symmetric
          ++ (sign
              ++ ((put_be 2 p.curve_id ++ [])
                  ++ (kdf
                      ++ ((put_be 2 (length p.point.x_raw) ++ p.point.x_raw)
                          ++ ((put_be 2 (length p.point.y_raw) ++ p.point.y_raw) ++ []))))),
      rw (e₁, e₂, e₃),
      λ rest. simp (
        append_assoc,
        r₁ _,
        r₂ _,
        unpack_num-put_be w16 p.curve_id _ curve,
        r₃ _,
        unpack_bytes-put_be p.point.x_raw _ x,
        unpack_bytes-put_be p.point.y_raw _ y,
      ),
    )

abbrev pub ValidSymCipher : SymCipherParams → Type 0
ValidSymCipher p = ValidSym p.symmetric × (length p.unique < 2 ^ 16)

sym_cipher_back :
    (p : SymCipherParams)
    → ValidSymCipher p
    → ReadsBack (encode_sym_cipher_params (some p)) decode_sym_cipher_params p
unfolding encode_sym_cipher_params decode_sym_cipher_params pack pack_values pack_value
sym_cipher_back p (v, unique) =
    let (symmetric, e, r) = sym_back p.symmetric v in
    (
      symmetric ++ ((put_be 2 (length p.unique) ++ p.unique) ++ []),
      rw e,
      λ rest. simp (append_assoc, r _, unpack_bytes-put_be p.unique _ unique),
    )

-- The hash and the KDF stand only where the algorithm uses them.
abbrev pub ValidKeyedHash : KeyedHashParams → Type 0
ValidKeyedHash p =
    (((p.alg ≡ alg_null) × (p.hash ≡ 0) × (p.kdf ≡ 0))
      ⊎ ((p.alg ≡ alg_hmac) × (p.hash < 2 ^ 16) × (p.kdf ≡ 0))
      ⊎ ((p.alg ≡ alg_xor) × (p.hash < 2 ^ 16) × (p.kdf < 2 ^ 16)))
    × (length p.unique < 2 ^ 16)

keyed_hash_back :
    (p : KeyedHashParams)
    → ValidKeyedHash p
    → ReadsBack (encode_keyed_hash_params (some p)) decode_keyed_hash_params p
unfolding encode_keyed_hash_params decode_keyed_hash_params pack pack_values pack_value
    encode_keyed_hash_alg decode_keyed_hash_alg
keyed_hash_back p (inl (alg, hash, kdf), unique) = (
  (put_be 2 alg_null ++ []) ++ ((put_be 2 (length p.unique) ++ p.unique) ++ []),
  rw alg,
  λ rest.
      rw (alg, hash, kdf)
        (simp (
          append_assoc,
          unpack_num-put_be w16 alg_null _ (omega arith),
          unpack_bytes-put_be p.unique _ unique,
        )),
)
keyed_hash_back p (inr (inl (alg, hash, kdf)), unique) = (
  (put_be 2 alg_hmac ++ (put_be 2 p.hash ++ []))
      ++ ((put_be 2 (length p.unique) ++ p.unique) ++ []),
  rw alg,
  λ rest.
      rw (alg, kdf)
        (simp (
          append_assoc,
          unpack_num-put_be w16 alg_hmac _ (omega arith),
          unpack_num-put_be w16 p.hash _ hash,
          unpack_bytes-put_be p.unique _ unique,
        )),
)
keyed_hash_back p (inr (inr (alg, hash, kdf)), unique) = (
  (put_be 2 alg_xor ++ (put_be 2 p.hash ++ (put_be 2 p.kdf ++ [])))
      ++ ((put_be 2 (length p.unique) ++ p.unique) ++ []),
  rw alg,
  λ rest. rw alg (
      simp (
        append_assoc,
        unpack_num-put_be w16 alg_xor _ (omega arith),
        unpack_num-put_be w16 p.hash _ hash,
        unpack_num-put_be w16 p.kdf _ kdf,
        unpack_bytes-put_be p.unique _ unique,
      )),
)

-- A public area with the parameters of its type, and no others.
pub data Parameters : Type 0 where
  rsa : RsaParams → Parameters
  ecc : EccParams → Parameters
  sym_cipher : SymCipherParams → Parameters
  keyed_hash : KeyedHashParams → Parameters

abbrev pub with_parameters : (name_alg attributes : ℕ) (auth_policy : List ℕ) → Parameters → Public
with_parameters n a policy (rsa p) = record (public_head alg_rsa n a policy) {
  rsa_parameters = some p;
}
with_parameters n a policy (ecc p) = record (public_head alg_ecc n a policy) {
  ecc_parameters = some p;
}
with_parameters n a policy (sym_cipher p) = record (public_head alg_sym_cipher n a policy) {
  sym_cipher_parameters = some p;
}
with_parameters n a policy (keyed_hash p) = record (public_head alg_keyed_hash n a policy) {
  keyed_hash_parameters = some p;
}

abbrev pub ValidParameters : Parameters → Type 0
ValidParameters (rsa p) = ValidRsa p
ValidParameters (ecc p) = ValidEcc p
ValidParameters (sym_cipher p) = ValidSymCipher p
ValidParameters (keyed_hash p) = ValidKeyedHash p

module _ (n a : ℕ) (policy : List ℕ) where
  parameters_back :
      (ps : Parameters)
      → ValidParameters ps
      → ReadsBack
          (encode_parameters (with_parameters n a policy ps))
          (decode_parameters (public_head (with_parameters n a policy ps).type n a policy))
          (with_parameters n a policy ps)
  unfolding encode_parameters decode_parameters
  parameters_back (rsa p) v = let (b, e, r) = rsa_back p v in (b, e, λ rest. rw (r rest))
  parameters_back (ecc p) v = let (b, e, r) = ecc_back p v in (b, e, λ rest. rw (r rest))
  parameters_back (sym_cipher p) v =
      let (b, e, r) = sym_cipher_back p v in (b, e, λ rest. rw (r rest))
  parameters_back (keyed_hash p) v =
      let (b, e, r) = keyed_hash_back p v in (b, e, λ rest. rw (r rest))

type_small :
    (n a : ℕ) (policy : List ℕ) (ps : Parameters) → (with_parameters n a policy ps).type < 2 ^ 16
type_small n a policy (rsa p) = omega arith
type_small n a policy (ecc p) = omega arith
type_small n a policy (sym_cipher p) = omega arith
type_small n a policy (keyed_hash p) = omega arith

same_head :
    (n a : ℕ) (policy : List ℕ) (ps : Parameters)
    → ((with_parameters n a policy ps).name_alg ≡ n)
      × ((with_parameters n a policy ps).attributes ≡ a)
      × ((with_parameters n a policy ps).auth_policy ≡ policy)
same_head n a policy (rsa p) = (refl, refl, refl)
same_head n a policy (ecc p) = (refl, refl, refl)
same_head n a policy (sym_cipher p) = (refl, refl, refl)
same_head n a policy (keyed_hash p) = (refl, refl, refl)

public_back :
    (n a : ℕ) (policy : List ℕ) (ps : Parameters)
    → n < 2 ^ 16
    → a < 2 ^ 32
    → length policy < 2 ^ 16
    → ValidParameters ps
    → ReadsBack
        (encode_public (with_parameters n a policy ps))
        read_public
        (with_parameters n a policy ps)
unfolding encode_public read_public pack pack_values pack_value
public_back n a policy ps name attributes bytes v =
    let (b, e, r) = parameters_back n a policy ps v in
    let (s₁, s₂, s₃) = same_head n a policy ps in
    let type = (with_parameters n a policy ps).type in
    (
      (put_be 2 type
            ++ (put_be 2 n ++ (put_be 4 a ++ ((put_be 2 (length policy) ++ policy) ++ []))))
          ++ b,
      rw (s₁, s₂, s₃, e),
      λ rest. simp (
        append_assoc,
        unpack_num-put_be w16 type _ (type_small n a policy ps),
        unpack_num-put_be w16 n _ name,
        unpack_num-put_be w32 a _ attributes,
        unpack_bytes-put_be policy _ bytes,
        r rest,
      ),
    )

-- A public area with the parameters of its type, whose numbers fit their widths, whose schemes have
-- algorithms and whose byte slices are shorter than 65536, is encoded with no error and decoded
-- back, whatever follows it.
pub decode_public-encode_public :
    (n a : ℕ) (policy : List ℕ) (ps : Parameters) (rest : List ℕ)
    → n < 2 ^ 16
    → a < 2 ^ 32
    → length policy < 2 ^ 16
    → ValidParameters ps
    → (b : List ℕ) × (encode_public (with_parameters n a policy ps) ≡ ok b)
      × (decode_public (b ++ rest) ≡ ok (with_parameters n a policy ps))
unfolding decode_public
decode_public-encode_public n a policy ps rest name attributes bytes v =
    let (b, e, r) = public_back n a policy ps name attributes bytes v in (b, e, rw (r rest))
