-- ===== src/Tpm2/Session/Crypto.antt =====
-- What the sessions use of packages crypto and crypto/hmac, and TPMIAlgHash.Hash of
-- tpm2/structures.go.
use go_tpm.Base.{ℕ, List, ◌≡◌, ◌==◌, if◌then◌else◌, length}
use go_tpm.Base.Outcome.{ok, err}
use go_tpm.Tpm2.Fault.{Res, unsupported_hash}

pub data Hash : Type 0 where
  sha1 sha256 sha384 sha512 : Hash

-- A sum has the size of its hash function, and is a function of the bytes written.
pub record Crypto : Type 0 where
  pub size : Hash → ℕ
  pub sum : Hash → List ℕ → List ℕ
  -- the key, then the bytes written
  pub mac : Hash → List ℕ → List ℕ → List ℕ
  pub length-sum : (h : Hash) (b : List ℕ) → length (sum h b) ≡ size h

-- `TPMIAlgHash.Hash`
abbrev pub hash_of : ℕ → Res Hash
hash_of alg =
    if alg == 4
    then ok sha1
    else if alg == 11
    then ok sha256
    else if alg == 12
    then ok sha384
    else if alg == 13
    then ok sha512
    else err unsupported_hash
