-- ===== src/Tpm2/Names.antt =====
-- tpm2/names.go: the names of handles, objects and NV indices.
use go_tpm.Base.{ℕ, List, ◌++◌}
use go_tpm.Base.Bytes.{put_be}
use go_tpm.Base.Outcome.{ok, ◌>>=◌}
use go_tpm.Tpm2.Fault.{Res}
use go_tpm.Tpm2.Reflect.Types.{Ty, El}
use go_tpm.Tpm2.Reflect.Marshal.{marshal}
use go_tpm.Tpm2.Session.Crypto.{Crypto, hash_of}
pub mod Shape

-- `HandleName` and `PrimaryHandleName`
unfoldable pub handle_name : ℕ → List ℕ
handle_name h = put_be 4 h

-- `objectOrNVName` of a public area of the type `t`
unfoldable pub object_or_nv_name : Crypto → ℕ → (t : Ty) → El t → Res (List ℕ)
object_or_nv_name crypto alg t area = do
  h ← hash_of alg
  b ← marshal t area
  ok (put_be 2 alg ++ crypto.sum h b)
