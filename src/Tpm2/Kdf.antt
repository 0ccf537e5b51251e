-- ===== src/Tpm2/Kdf.antt =====
-- legacy/tpm2/kdf.go: KDFaHash, KDFeHash and kdf; and tpm2/kdf.go, whose KDFa and KDFe call them. A
-- label is the bytes of a string.
use go_tpm.Base.{
  ℕ, zero, suc, ◌+◌, ◌-◌, ◌/◌, ◌%◌, ◌^◌, bit_and, List, [], ◌∷◌, ◌++◌, Option, none, some, ltb,
  if◌then◌else◌, length, take,
}
use go_tpm.Base.Bytes.{put_be}
use go_tpm.Tpm2.Session.Crypto.{Crypto, Hash}
pub mod Blocks
pub mod Bound

-- What the loop appends in a round: the digest of the counter, cut to 32 bits, and of what `update`
-- writes. `digest` is the hash or the HMAC, from `Reset` to `Sum`.
abbrev pub block : (List ℕ → List ℕ) → List ℕ → ℕ → List ℕ
block digest update counter = digest (put_be 4 counter ++ update)

-- The loop of `kdf` for so many bytes; `none` is a loop that has not ended within the fuel.
unfoldable pub kdf_loop : (List ℕ → List ℕ) → List ℕ → ℕ → ℕ → ℕ → List ℕ → Option (List ℕ)
kdf_loop digest update n zero counter out = if ltb (length out) n then none else some out
kdf_loop digest update n (suc fuel) counter out =
    let next = kdf_loop digest update n fuel (suc counter) (out ++ block digest update counter) in
    if ltb (length out) n then next else some out

-- The unused bits of the most significant octet are cleared.
unfoldable pub mask_first : ℕ → List ℕ → List ℕ
mask_first mask_bits [] = []
mask_first zero (x ∷ out) = x ∷ out
mask_first (suc m) (x ∷ out) = bit_and x (2 ^ suc m - 1) ∷ out

-- `(bits + 7) / 8`
abbrev pub bytes_for : ℕ → ℕ
bytes_for bits = (bits + 7) / 8

-- The bytes that are asked for, with the unused bits cleared.
abbrev pub finish : ℕ → Option (List ℕ) → Option (List ℕ)
finish bits none = none
finish bits (some out) = some (mask_first (bits % 8) (take (bytes_for bits) out))

-- `kdf`: every round appends at least a byte, so as many rounds as bytes are enough fuel.
unfoldable pub kdf : (List ℕ → List ℕ) → List ℕ → ℕ → Option (List ℕ)
kdf digest update bits = finish bits (kdf_loop digest update (bytes_for bits) (bytes_for bits) 1 [])

module _ (crypto : Crypto) where
  -- `KDFaHash`
  abbrev pub kdfa_hash : Hash → (key label context_u context_v : List ℕ) → ℕ → Option (List ℕ)
  kdfa_hash h key label context_u context_v bits =
      kdf (crypto.mac h key) (label ++ (0 ∷ context_u ++ (context_v ++ put_be 4 bits))) bits

  -- `KDFeHash`
  abbrev pub kdfe_hash : Hash → (z purpose party_u_info party_v_info : List ℕ) → ℕ → Option (List ℕ)
  kdfe_hash h z purpose party_u_info party_v_info bits =
      kdf (crypto.sum h) (z ++ (purpose ++ (0 ∷ party_u_info ++ party_v_info))) bits
