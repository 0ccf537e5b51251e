-- ===== src/Legacy/Signature.antt =====
-- Signature and Private of legacy/tpm2/structures.go. A big.Int is a number that is not negative.
pub mod RoundTrip
use go_tpm.Base.{
  ℕ, zero, suc, ◌/◌, ◌%◌, ◌+◌, ◌||◌, List, [], ◌∷◌, ◌++◌, Option, none, some, ◌==◌, if◌then◌else◌,
}
use go_tpm.Base.Bytes.{get_be}
use go_tpm.Base.Outcome.{ok, err, panic, ◌>>=◌}
use go_tpm.Tpm2.Reflect.Types.{w16}
use go_tpm.Tpmutil.Encoding.{value, no_values, num, u16_bytes, struct, ptr, null}
use go_tpm.Legacy.Wire.{Res, pack, unpack_num, unpack_bytes, unsupported_signature}
use go_tpm.Legacy.Algorithm.{alg_rsassa, alg_rsapss, alg_ecdsa, is_null}

pub record SignatureRsa : Type 0 where
  pub hash_alg : ℕ
  pub signature : List ℕ

pub record SignatureEcc : Type 0 where
  pub hash_alg : ℕ
  pub r : ℕ
  pub s : ℕ

pub record Signature : Type 0 where
  pub alg : ℕ
  pub rsa : Option SignatureRsa
  pub ecc : Option SignatureEcc

-- `big.Int.Bytes`: as many bytes as the number has, with fuel for one more than the number.
unfoldable pub big_bytes_from : ℕ → List ℕ → ℕ → List ℕ
big_bytes_from zero acc n = acc
big_bytes_from (suc fuel) acc n =
    let rest = big_bytes_from fuel ((n % 256) ∷ acc) (n / 256) in if n == 0 then acc else rest

unfoldable pub big_bytes : ℕ → List ℕ
unfolding big_bytes_from
big_bytes n = big_bytes_from n [] n

-- A nil pointer is no value that Pack takes, and its fields are not there to be read.
abbrev pub encode_rsa_signature : Option SignatureRsa → Res (List ℕ)
encode_rsa_signature none = pack (value null no_values)
encode_rsa_signature (some s) = pack (
    value (ptr (struct (value (num w16 s.hash_alg) (value (u16_bytes s.signature) no_values))))
      no_values)

abbrev pub encode_ecc_signature : Option SignatureEcc → Res (List ℕ)
encode_ecc_signature none = panic
encode_ecc_signature (some s) = pack (
    value (num w16 s.hash_alg)
      (value (u16_bytes (big_bytes s.r)) (value (u16_bytes (big_bytes s.s)) no_values)))

-- `Signature.Encode`: another algorithm has no signature.
unfoldable pub encode_signature_body : Signature → Res (List ℕ)
encode_signature_body s =
    if s.alg == alg_rsassa || s.alg == alg_rsapss
    then encode_rsa_signature s.rsa
    else if s.alg == alg_ecdsa
    then encode_ecc_signature s.ecc
    else ok []

unfoldable pub encode_signature : Signature → Res (List ℕ)
unfolding encode_signature_body
encode_signature s = do
  head ← pack (value (num w16 s.alg) no_values)
  signature ← encode_signature_body s
  ok (head ++ signature)

-- `DecodeSignature`
unfoldable pub decode_signature_body : ℕ → List ℕ → Res (Signature × List ℕ)
decode_signature_body alg b =
    if alg == alg_rsassa || alg == alg_rsapss
    then (do
      (hash_alg, b₁) ← unpack_num w16 b
      (signature, b₂) ← unpack_bytes b₁
      ok (
        record {
          alg = alg;
          rsa = some (record { hash_alg = hash_alg; signature = signature });
          ecc = none;
        },
        b₂,
      ))
    else if alg == alg_ecdsa
    then (do
      (hash_alg, b₁) ← unpack_num w16 b
      (r, b₂) ← unpack_bytes b₁
      (s, b₃) ← unpack_bytes b₂
      ok (
        record {
          alg = alg;
          rsa = none;
          ecc = some (record { hash_alg = hash_alg; r = get_be r; s = get_be s });
        },
        b₃,
      ))
    else err unsupported_signature

unfoldable pub decode_signature : List ℕ → Res (Signature × List ℕ)
unfolding decode_signature_body
decode_signature b = do (alg, b₁) ← unpack_num w16 b; decode_signature_body alg b₁

pub record Private : Type 0 where
  pub type : ℕ
  pub auth_value : List ℕ
  pub seed_value : List ℕ
  pub sensitive : List ℕ

-- `Private.Encode`
unfoldable pub encode_private : Private → Res (List ℕ)
encode_private p =
    if is_null p.type
    then ok []
    else pack (
        value
          (struct (
            value (num w16 p.type) (
              value (u16_bytes p.auth_value)
                (value (u16_bytes p.seed_value) (value (u16_bytes p.sensitive) no_values)))))
          no_values)
