-- ===== src/Legacy/Algorithm.antt =====
-- Algorithm of legacy/tpm2/constants.go: what the encodings ask of it.
use go_tpm.Base.{ℕ, Bool, ◌||◌, List, [], ◌∷◌, ◌==◌, if◌then◌else◌}
use go_tpm.Base.Outcome.{ok, err}
use go_tpm.Legacy.Wire.{Res, unsupported_hash}

abbrev pub alg_unknown : ℕ
alg_unknown = 0x0000

abbrev pub alg_rsa : ℕ
alg_rsa = 0x0001

abbrev pub alg_hmac : ℕ
alg_hmac = 0x0005

abbrev pub alg_keyed_hash : ℕ
alg_keyed_hash = 0x0008

abbrev pub alg_xor : ℕ
alg_xor = 0x000a

abbrev pub alg_null : ℕ
alg_null = 0x0010

abbrev pub alg_rsassa : ℕ
alg_rsassa = 0x0014

abbrev pub alg_rsapss : ℕ
alg_rsapss = 0x0016

abbrev pub alg_oaep : ℕ
alg_oaep = 0x0017

abbrev pub alg_ecdsa : ℕ
alg_ecdsa = 0x0018

abbrev pub alg_ecdaa : ℕ
alg_ecdaa = 0x001a

abbrev pub alg_ecc : ℕ
alg_ecc = 0x0023

abbrev pub alg_sym_cipher : ℕ
alg_sym_cipher = 0x0025

-- `IsNull`, `UsesCount` and `UsesHash`
abbrev pub is_null : ℕ → Bool
is_null a = a == alg_null || a == alg_unknown

abbrev pub uses_count : ℕ → Bool
uses_count a = a == alg_ecdaa

abbrev pub uses_hash : ℕ → Bool
uses_hash a = a == alg_oaep

-- The hash functions of package crypto in hashInfo; the SHA-3 functions are available only where
-- the program links them.
pub data CryptoHash : Type 0 where
  sha1 sha256 sha384 sha512 sha3_256 sha3_384 sha3_512 : CryptoHash

abbrev pub hash_info : List (ℕ × CryptoHash)
hash_info =
    (0x0004, sha1)
    ∷ (0x000b, sha256)
    ∷ (0x000c, sha384)
    ∷ (0x000d, sha512)
    ∷ (0x0027, sha3_256)
    ∷ (0x0028, sha3_384)
    ∷ (0x0029, sha3_512)
    ∷ []

-- What package crypto gives of hash functions.
pub record Hashes : Type 0 where
  pub available : CryptoHash → Bool
  pub size : CryptoHash → ℕ
  pub sum : CryptoHash → List ℕ → List ℕ

-- `Hash`
unfoldable pub hash_in : Hashes → ℕ → List (ℕ × CryptoHash) → Res CryptoHash
hash_in hashes a [] = err unsupported_hash
hash_in hashes a ((alg, h) ∷ infos) =
    let rest = hash_in hashes a infos in
    if alg == a then (if hashes.available h then ok h else err unsupported_hash) else rest

abbrev pub algorithm_hash : Hashes → ℕ → Res CryptoHash
algorithm_hash hashes a = hash_in hashes a hash_info
