-- ===== src/Legacy/Attest/Digests.antt =====
-- Lists of digests are read back.
use go_tpm.Base.{
  ℕ, zero, suc, ◌+◌, ◌^◌, ◌<◌, ◌≤◌, ◌≡◌, refl, arith, List, [], ◌∷◌, ◌++◌, append_assoc, append-nil,
  ==_refl, length, length-append, All,
}
use go_tpm.Base.Bytes.{put_be, length-put_be}
use go_tpm.Base.Outcome.{ok}
use go_tpm.Tpm2.Reflect.Types.{w32}
use go_tpm.Tpmutil.Encoding.{pack_values, pack_value}
use native.Mathlib.Nat.{mod-eq_of_lt}
use go_tpm.Legacy.Wire.{pack, unpack_bytes}
use go_tpm.Legacy.Wire.Back.{unpack_num-put_be, unpack_bytes-put_be}
use go_tpm.Legacy.Attest.{encode_items, encode_digests, decode_items, decode_digests}

abbrev item : List ℕ → List ℕ
item d = put_be 2 (length d) ++ d

abbrev items : List (List ℕ) → List ℕ
items [] = []
items (d ∷ ds) = (item d ++ []) ++ items ds

encode_items-items : (ds : List (List ℕ)) → encode_items ds ≡ ok (items ds)
unfolding encode_items pack pack_values pack_value
encode_items-items [] = refl
encode_items-items (d ∷ ds) = rw (encode_items-items ds)

-- With some bytes to read, an item is read.
decode_items-step :
    (fuel : ℕ) (b d rest : List ℕ) (ds : List (List ℕ))
    → 0 < length b
    → unpack_bytes b ≡ ok (d, rest)
    → decode_items fuel rest ≡ ok ds
    → decode_items (suc fuel) b ≡ ok (d ∷ ds)
unfolding decode_items
decode_items-step fuel [] d rest ds h e e' = absurd (omega (arith, h))
decode_items-step fuel (x ∷ b) d rest ds h e e' = rw (e, e')

length-items :
    (d : List ℕ) (ds : List (List ℕ)) → length (items (d ∷ ds)) ≡ 2 + length d + length (items ds)
length-items d ds = omega (
  arith,
  length-append (item d ++ []) (items ds),
  length-append (item d) [],
  length-append (put_be 2 (length d)) d,
  length-put_be 2 (length d),
)

decode_items-items :
    (fuel : ℕ) (ds : List (List ℕ))
    → All (λ d. length d < 2 ^ 16) ds
    → length (items ds) ≤ fuel
    → decode_items fuel (items ds) ≡ ok ds
unfolding decode_items
decode_items-items fuel [] all h = refl
decode_items-items zero (d ∷ ds) all h = absurd (omega (arith, h, length-items d ds))
decode_items-items (suc fuel) (d ∷ ds) all h =
    decode_items-step fuel (items (d ∷ ds)) d (items ds) ds (omega (arith, length-items d ds))
      (simp (append_assoc, append-nil, unpack_bytes-put_be d (items ds) all.0))
      (decode_items-items fuel ds all.1 (omega (arith, h, length-items d ds)))

-- Fewer than 2^32 digests, each of fewer than 65536 bytes, are encoded with no error and decoded
-- back, the fuel being enough.
pub decode_digests-encode_digests :
    (ds : List (List ℕ))
    → All (λ d. length d < 2 ^ 16) ds
    → length ds < 2 ^ 32
    → (b : List ℕ) × (encode_digests ds ≡ ok b) × (decode_digests b ≡ ok ds)
unfolding encode_digests decode_digests pack pack_values pack_value
decode_digests-encode_digests ds all few = (
  (put_be 4 (length ds) ++ []) ++ items ds,
  simp (encode_items-items ds),
  simp (
    append_assoc,
    append-nil,
    unpack_num-put_be w32 (length ds) (items ds) few,
    decode_items-items (length (items ds)) ds all (omega arith),
    mod-eq_of_lt few,
    ==_refl (length ds),
  ),
)
