-- ===== src/Legacy/Scheme.antt =====
-- The schemes of legacy/tpm2/structures.go; a pointer that may be nil is an Option.
pub mod RoundTrip
use go_tpm.Base.{ℕ, Bool, List, Option, none, some, ◌==◌, if◌then◌else◌}
use go_tpm.Base.Outcome.{ok, err, ◌>>=◌}
use go_tpm.Tpm2.Reflect.Types.{w16, w32}
use go_tpm.Tpmutil.Encoding.{value, no_values, num}
use go_tpm.Legacy.Wire.{Res, pack, unpack_num}
use go_tpm.Legacy.Algorithm.{alg_null, is_null, uses_count, uses_hash}

pub record SymScheme : Type 0 where
  pub alg : ℕ
  pub key_bits : ℕ
  pub mode : ℕ

pub record AsymScheme : Type 0 where
  pub alg : ℕ
  pub hash : ℕ

pub record SigScheme : Type 0 where
  pub alg : ℕ
  pub hash : ℕ
  pub count : ℕ

pub record KdfScheme : Type 0 where
  pub alg : ℕ
  pub hash : ℕ

-- `Pack(AlgNull)`
abbrev pub pack_null : Res (List ℕ)
pack_null = pack (value (num w16 alg_null) no_values)

-- `SymScheme.encode` and `decodeSymScheme`
unfoldable pub encode_sym_scheme : Option SymScheme → Res (List ℕ)
encode_sym_scheme none = pack_null
encode_sym_scheme (some s) =
    if is_null s.alg
    then pack_null
    else pack
        (value (num w16 s.alg) (value (num w16 s.key_bits) (value (num w16 s.mode) no_values)))

unfoldable pub decode_sym_scheme : List ℕ → Res (Option SymScheme × List ℕ)
decode_sym_scheme b = do
  (alg, b₁) ← unpack_num w16 b
  if alg == alg_null then ok (none, b₁) else (do
    (key_bits, b₂) ← unpack_num w16 b₁
    (mode, b₃) ← unpack_num w16 b₂
    ok (some (record { alg = alg; key_bits = key_bits; mode = mode }), b₃))

-- `AsymScheme.encode`
unfoldable pub encode_asym_scheme : Option AsymScheme → Res (List ℕ)
encode_asym_scheme none = pack_null
encode_asym_scheme (some s) =
    if is_null s.alg
    then pack_null
    else if uses_hash s.alg
    then pack (value (num w16 s.alg) (value (num w16 s.hash) no_values))
    else pack (value (num w16 s.alg) no_values)

-- `SigScheme.encode` and `decodeSigScheme`
unfoldable pub encode_sig_scheme : Option SigScheme → Res (List ℕ)
encode_sig_scheme none = pack_null
encode_sig_scheme (some s) =
    if is_null s.alg
    then pack_null
    else if uses_count s.alg
    then pack (value (num w16 s.alg) (value (num w16 s.hash) (value (num w32 s.count) no_values)))
    else pack (value (num w16 s.alg) (value (num w16 s.hash) no_values))

unfoldable pub decode_sig_scheme : List ℕ → Res (Option SigScheme × List ℕ)
decode_sig_scheme b = do
  (alg, b₁) ← unpack_num w16 b
  if alg == alg_null then ok (none, b₁) else (do
    (hash, b₂) ← unpack_num w16 b₁
    (count, b₃) ← if uses_count alg then unpack_num w32 b₂ else ok (0, b₂)
    ok (some (record { alg = alg; hash = hash; count = count }), b₃))

-- `KDFScheme.encode` and `decodeKDFScheme`
unfoldable pub encode_kdf_scheme : Option KdfScheme → Res (List ℕ)
encode_kdf_scheme none = pack_null
encode_kdf_scheme (some s) =
    if is_null s.alg
    then pack_null
    else pack (value (num w16 s.alg) (value (num w16 s.hash) no_values))

unfoldable pub decode_kdf_scheme : List ℕ → Res (Option KdfScheme × List ℕ)
decode_kdf_scheme b = do
  (alg, b₁) ← unpack_num w16 b
  if alg == alg_null
      then ok (none, b₁)
      else (do (hash, b₂) ← unpack_num w16 b₁; ok (some (record { alg = alg; hash = hash }), b₂))
