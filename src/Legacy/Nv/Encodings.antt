-- ===== src/Legacy/Nv/Encodings.antt =====
-- What the commands on NV indices write and read.
use go_tpm.Base.{ℕ, List, [], ◌∷◌, ◌++◌}
use go_tpm.Base.Outcome.{ok, ◌>>=◌}
use go_tpm.Tpm2.Reflect.Types.{w16, w32}
use go_tpm.Tpmutil.Encoding.{value, no_values, num}
use go_tpm.Legacy.Wire.{Res, pack, unpack_num, unpack_bytes}
use go_tpm.Legacy.Tpm.{password_auth, encode_auth_area}

pub record NvPublic : Type 0 where
  pub nv_index : ℕ
  pub name_alg : ℕ
  pub attributes : ℕ
  pub auth_policy : List ℕ
  pub data_size : ℕ

-- `decodeNVReadPublic`
unfoldable pub unpack_nv_public : List ℕ → Res NvPublic
unpack_nv_public b = do
  (nv_index, b₁) ← unpack_num w32 b
  (name_alg, b₂) ← unpack_num w16 b₁
  (attributes, b₃) ← unpack_num w32 b₂
  (auth_policy, b₄) ← unpack_bytes b₃
  (data_size, b₅) ← unpack_num w16 b₄
  ok (record {
    nv_index = nv_index;
    name_alg = name_alg;
    attributes = attributes;
    auth_policy = auth_policy;
    data_size = data_size;
  })

unfoldable pub decode_nv_read_public : List ℕ → Res NvPublic
unfolding unpack_nv_public
decode_nv_read_public b = do (p, rest) ← unpack_bytes b; unpack_nv_public p

-- `encodeNVRead` and `decodeNVRead`
unfoldable pub encode_nv_read :
    (nv_index auth_handle : ℕ) (password : List ℕ) (offset data_size : ℕ) → Res (List ℕ)
encode_nv_read nv_index auth_handle password offset data_size = do
  handles ← pack (value (num w32 auth_handle) (value (num w32 nv_index) no_values))
  auth ← encode_auth_area (password_auth password ∷ [])
  params ← pack (value (num w16 data_size) (value (num w16 offset) no_values))
  ok (handles ++ (auth ++ params))

unfoldable pub decode_nv_read : List ℕ → Res (List ℕ)
decode_nv_read b = do (size, b₁) ← unpack_num w32 b; (block, b₂) ← unpack_bytes b₁; ok block
