-- ===== src/Tpm2/Session/Hashes.antt =====
-- cpHash, rpHash and computeHMAC of tpm2/sessions.go.
use go_tpm.Base.{ℕ, List, [], ◌∷◌, ◌++◌}
use go_tpm.Base.Bytes.{put_be}
use go_tpm.Base.Outcome.{ok, ◌>>=◌}
use go_tpm.Tpm2.Fault.{Res}
use go_tpm.Tpm2.Session.Crypto.{Crypto, hash_of}
use go_tpm.Tpm2.Session.Attributes.{Attributes, attrs_to_bytes}

-- The bytes of the names, one after the other.
unfoldable pub join : List (List ℕ) → List ℕ
join [] = []
join (name ∷ names) = name ++ join names

module _ (crypto : Crypto) where
  unfoldable pub cp_hash : ℕ → ℕ → List (List ℕ) → List ℕ → Res (List ℕ)
  cp_hash alg cc names parms = do
    ha ← hash_of alg
    ok (crypto.sum ha (put_be 4 cc ++ (join names ++ parms)))

  unfoldable pub rp_hash : ℕ → ℕ → ℕ → List ℕ → Res (List ℕ)
  rp_hash alg rc cc parms = do
    ha ← hash_of alg
    ok (crypto.sum ha (put_be 4 rc ++ (put_be 4 cc ++ parms)))

  unfoldable pub compute_hmac :
      ℕ → List ℕ → List ℕ → List ℕ → List ℕ → List ℕ → Attributes → Res (List ℕ)
  compute_hmac alg key p_hash nonce_newer nonce_older add_nonces attrs = do
    ha ← hash_of alg
    ok (
        crypto.mac ha key
          (p_hash ++ (nonce_newer ++ (nonce_older ++ (add_nonces ++ attrs_to_bytes attrs)))))
