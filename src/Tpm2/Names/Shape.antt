-- ===== src/Tpm2/Names/Shape.antt =====
-- tpm2/names.go: what a name says.
use go_tpm.Base.{
  ℕ, ◌+◌, ◌^◌, ◌<◌, ◌≡◌, refl, ◌∙◌, List, ◌++◌, length, take, drop, arith, length-append,
}
use go_tpm.Base.Bytes.{put_be, get_be, length-put_be, get_be-put_be}
use go_tpm.Base.Outcome.{ok}
use go_tpm.Tpm2.Reflect.Types.{Ty, El}
use go_tpm.Tpm2.Reflect.Marshal.{marshal}
use go_tpm.Tpm2.Session.Crypto.{Crypto, Hash, hash_of}
use go_tpm.Tpm2.Names.{object_or_nv_name}

-- A public area that is marshalled has a name: its first 2 bytes are the number of the hash
-- algorithm, the rest is the sum of the marshalled area, and it is 2 bytes longer than the sum.
pub object_or_nv_name-shape :
    (crypto : Crypto) (alg : ℕ) (h : Hash) (t : Ty) (area : El t) (b : List ℕ)
    → alg < 2 ^ 16
    → hash_of alg ≡ ok h
    → marshal t area ≡ ok b
    → (name : List ℕ) × (object_or_nv_name crypto alg t area ≡ ok name)
      × (get_be (take 2 name) ≡ alg)
      × (drop 2 name ≡ crypto.sum h b)
      × (length name ≡ 2 + crypto.size h)
unfolding object_or_nv_name put_be
object_or_nv_name-shape crypto alg h t area b small k e = (
  put_be 2 alg ++ crypto.sum h b,
  rw (k, e),
  get_be-put_be 2 alg ∙ omega arith,
  refl,
  omega (
    arith,
    length-append (put_be 2 alg) (crypto.sum h b),
    length-put_be 2 alg,
    crypto.length-sum h b,
  ),
)
