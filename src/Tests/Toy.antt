-- ===== src/Tests/Toy.antt =====
-- A small checksum in place of the cryptography.
use go_tpm.Base.{ℕ, zero, suc, ◌+◌, ◌≡◌, refl, ap, List, [], ◌∷◌, length, replicate}
use go_tpm.Tpm2.Session.Crypto.{Crypto, Hash, sha1, sha256, sha384, sha512}

abbrev pub toy_size : Hash → ℕ
toy_size sha1 = 20
toy_size sha256 = 32
toy_size sha384 = 48
toy_size sha512 = 64

abbrev pub total : List ℕ → ℕ
total [] = 0
total (x ∷ xs) = x + total xs

pub length-replicate : (k n : ℕ) → length (replicate k n) ≡ k
length-replicate zero n = refl
length-replicate (suc k) n = ap suc (length-replicate k n)

abbrev pub toy : Crypto
toy = record {
  size = toy_size;
  sum = λ h b. replicate (toy_size h) (total b);
  mac = λ h key b. total key ∷ total b ∷ [];
  length-sum = λ h b. length-replicate (toy_size h) (total b);
}
