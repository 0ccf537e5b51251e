-- ===== src/Legacy/Public.antt =====
-- Public and the parameters of keys in legacy/tpm2/structures.go; a pointer that may be nil is an
-- Option. The decoders return an error with no value, and what they leave of the buffer.
pub mod RoundTrip
use go_tpm.Base.{ℕ, Bool, List, [], ◌++◌, Option, none, some, ◌==◌, if◌then◌else◌}
use go_tpm.Base.Bytes.{get_be}
use go_tpm.Base.Outcome.{ok, err, panic, ◌>>=◌}
use go_tpm.Tpm2.Reflect.Types.{w16, w32}
use go_tpm.Tpmutil.Encoding.{value, no_values, num, u16_bytes}
use go_tpm.Legacy.Wire.{
  Res, pack, unpack_num, unpack_bytes, unsupported_type, unsupported_keyed_hash,
}
use go_tpm.Legacy.Algorithm.{
  alg_null, alg_rsa, alg_ecc, alg_keyed_hash, alg_sym_cipher, alg_hmac, alg_xor,
}
use go_tpm.Legacy.Scheme.{
  SymScheme, SigScheme, KdfScheme, encode_sym_scheme, decode_sym_scheme, encode_sig_scheme,
  decode_sig_scheme, encode_kdf_scheme, decode_kdf_scheme,
}

pub record RsaParams : Type 0 where
  pub symmetric : Option SymScheme
  pub sign : Option SigScheme
  pub key_bits : ℕ
  pub exponent_raw : ℕ
  pub modulus_raw : List ℕ

pub record EcPoint : Type 0 where
  pub x_raw : List ℕ
  pub y_raw : List ℕ

pub record EccParams : Type 0 where
  pub symmetric : Option SymScheme
  pub sign : Option SigScheme
  pub curve_id : ℕ
  pub kdf : Option KdfScheme
  pub point : EcPoint

pub record SymCipherParams : Type 0 where
  pub symmetric : Option SymScheme
  pub unique : List ℕ

pub record KeyedHashParams : Type 0 where
  pub alg : ℕ
  pub hash : ℕ
  pub kdf : ℕ
  pub unique : List ℕ

pub record Public : Type 0 where
  pub type : ℕ
  pub name_alg : ℕ
  pub attributes : ℕ
  pub auth_policy : List ℕ
  pub rsa_parameters : Option RsaParams
  pub ecc_parameters : Option EccParams
  pub sym_cipher_parameters : Option SymCipherParams
  pub keyed_hash_parameters : Option KeyedHashParams

-- `Exponent` and `Modulus`
abbrev pub exponent : RsaParams → ℕ
exponent p = if p.exponent_raw == 0 then 0x10001 else p.exponent_raw

abbrev pub modulus : RsaParams → ℕ
modulus p = get_be p.modulus_raw

-- `RSAParams.encode` and `decodeRSAParams`
unfoldable pub encode_rsa_params : Option RsaParams → Res (List ℕ)
encode_rsa_params none = ok []
encode_rsa_params (some p) = do
  symmetric ← encode_sym_scheme p.symmetric
  sign ← encode_sig_scheme p.sign
  rest ← pack (
      value (num w16 p.key_bits)
        (value (num w32 p.exponent_raw) (value (u16_bytes p.modulus_raw) no_values)))
  ok (symmetric ++ (sign ++ rest))

unfoldable pub decode_rsa_params : List ℕ → Res (RsaParams × List ℕ)
decode_rsa_params b = do
  (symmetric, b₁) ← decode_sym_scheme b
  (sign, b₂) ← decode_sig_scheme b₁
  (key_bits, b₃) ← unpack_num w16 b₂
  (exponent_raw, b₄) ← unpack_num w32 b₃
  (modulus_raw, b₅) ← unpack_bytes b₄
  ok (
    record {
      symmetric = symmetric;
      sign = sign;
      key_bits = key_bits;
      exponent_raw = exponent_raw;
      modulus_raw = modulus_raw;
    },
    b₅,
  )

-- `ECCParams.encode` and `decodeECCParams`
unfoldable pub encode_ecc_params : Option EccParams → Res (List ℕ)
encode_ecc_params none = ok []
encode_ecc_params (some p) = do
  symmetric ← encode_sym_scheme p.symmetric
  sign ← encode_sig_scheme p.sign
  curve ← pack (value (num w16 p.curve_id) no_values)
  kdf ← encode_kdf_scheme p.kdf
  point ← pack (value (u16_bytes p.point.x_raw) (value (u16_bytes p.point.y_raw) no_values))
  ok (symmetric ++ (sign ++ (curve ++ (kdf ++ point))))

unfoldable pub decode_ecc_params : List ℕ → Res (EccParams × List ℕ)
decode_ecc_params b = do
  (symmetric, b₁) ← decode_sym_scheme b
  (sign, b₂) ← decode_sig_scheme b₁
  (curve_id, b₃) ← unpack_num w16 b₂
  (kdf, b₄) ← decode_kdf_scheme b₃
  (x, b₅) ← unpack_bytes b₄
  (y, b₆) ← unpack_bytes b₅
  ok (
    record {
      symmetric = symmetric;
      sign = sign;
      curve_id = curve_id;
      kdf = kdf;
      point = record { x_raw = x; y_raw = y };
    },
    b₆,
  )

-- `SymCipherParams.encode`, which reads the fields of a nil pointer, and `decodeSymCipherParams`
unfoldable pub encode_sym_cipher_params : Option SymCipherParams → Res (List ℕ)
encode_sym_cipher_params none = panic
encode_sym_cipher_params (some p) = do
  symmetric ← encode_sym_scheme p.symmetric
  unique ← pack (value (u16_bytes p.unique) no_values)
  ok (symmetric ++ unique)

unfoldable pub decode_sym_cipher_params : List ℕ → Res (SymCipherParams × List ℕ)
decode_sym_cipher_params b = do
  (symmetric, b₁) ← decode_sym_scheme b
  (unique, b₂) ← unpack_bytes b₁
  ok (record { symmetric = symmetric; unique = unique }, b₂)

-- `KeyedHashParams.encode` and `decodeKeyedHashParams`
unfoldable pub encode_keyed_hash_alg : KeyedHashParams → Res (List ℕ)
encode_keyed_hash_alg p =
    if p.alg == alg_null
    then pack (value (num w16 p.alg) no_values)
    else if p.alg == alg_hmac
    then pack (value (num w16 p.alg) (value (num w16 p.hash) no_values))
    else if p.alg == alg_xor
    then pack (value (num w16 p.alg) (value (num w16 p.hash) (value (num w16 p.kdf) no_values)))
    else err unsupported_keyed_hash

unfoldable pub encode_keyed_hash_params : Option KeyedHashParams → Res (List ℕ)
unfolding encode_keyed_hash_alg
encode_keyed_hash_params none = pack (value (num w16 alg_null) (value (u16_bytes []) no_values))
encode_keyed_hash_params (some p) = do
  params ← encode_keyed_hash_alg p
  unique ← pack (value (u16_bytes p.unique) no_values)
  ok (params ++ unique)

unfoldable pub decode_keyed_hash_alg : ℕ → List ℕ → Res (ℕ × ℕ × List ℕ)
decode_keyed_hash_alg alg b =
    if alg == alg_null
    then ok (0, 0, b)
    else if alg == alg_hmac
    then (do (hash, b₁) ← unpack_num w16 b; ok (hash, 0, b₁))
    else if alg == alg_xor
    then (do (hash, b₁) ← unpack_num w16 b; (kdf, b₂) ← unpack_num w16 b₁; ok (hash, kdf, b₂))
    else err unsupported_keyed_hash

unfoldable pub decode_keyed_hash_params : List ℕ → Res (KeyedHashParams × List ℕ)
unfolding decode_keyed_hash_alg
decode_keyed_hash_params b = do
  (alg, b₁) ← unpack_num w16 b
  (hash, kdf, b₂) ← decode_keyed_hash_alg alg b₁
  (unique, b₃) ← unpack_bytes b₂
  ok (record { alg = alg; hash = hash; kdf = kdf; unique = unique }, b₃)

-- `Public.Encode`
unfoldable pub encode_parameters : Public → Res (List ℕ)
encode_parameters p =
    if p.type == alg_rsa
    then encode_rsa_params p.rsa_parameters
    else if p.type == alg_keyed_hash
    then encode_keyed_hash_params p.keyed_hash_parameters
    else if p.type == alg_ecc
    then encode_ecc_params p.ecc_parameters
    else if p.type == alg_sym_cipher
    then encode_sym_cipher_params p.sym_cipher_parameters
    else err unsupported_type

unfoldable pub encode_public : Public → Res (List ℕ)
unfolding encode_parameters
encode_public p = do
  head ← pack (
      value (num w16 p.type) (
        value (num w16 p.name_alg)
          (value (num w32 p.attributes) (value (u16_bytes p.auth_policy) no_values))))
  params ← encode_parameters p
  ok (head ++ params)

-- The cases of `DecodePublic`, on a Public without parameters.
unfoldable pub decode_parameters : Public → List ℕ → Res (Public × List ℕ)
decode_parameters p b =
    if p.type == alg_rsa
    then (do
      (params, rest) ← decode_rsa_params b
      ok (record p { rsa_parameters = some params }, rest))
    else if p.type == alg_ecc
    then (do
      (params, rest) ← decode_ecc_params b
      ok (record p { ecc_parameters = some params }, rest))
    else if p.type == alg_sym_cipher
    then (do
      (params, rest) ← decode_sym_cipher_params b
      ok (record p { sym_cipher_parameters = some params }, rest))
    else if p.type == alg_keyed_hash
    then (do
      (params, rest) ← decode_keyed_hash_params b
      ok (record p { keyed_hash_parameters = some params }, rest))
    else err unsupported_type

abbrev pub public_head : (type name_alg attributes : ℕ) (auth_policy : List ℕ) → Public
public_head type name_alg attributes auth_policy = record {
  type = type;
  name_alg = name_alg;
  attributes = attributes;
  auth_policy = auth_policy;
  rsa_parameters = none;
  ecc_parameters = none;
  sym_cipher_parameters = none;
  keyed_hash_parameters = none;
}

unfoldable pub read_public : List ℕ → Res (Public × List ℕ)
unfolding decode_parameters
read_public b = do
  (type, b₁) ← unpack_num w16 b
  (name_alg, b₂) ← unpack_num w16 b₁
  (attributes, b₃) ← unpack_num w32 b₂
  (auth_policy, b₄) ← unpack_bytes b₃
  decode_parameters (public_head type name_alg attributes auth_policy) b₄

-- `DecodePublic`
unfoldable pub decode_public : List ℕ → Res Public
unfolding read_public
decode_public b = do (p, rest) ← read_public b; ok p
