-- ===== src/Tpm2/Kdf/Blocks.antt =====
-- kdf of legacy/tpm2/kdf.go: the loop ends, and its output is a prefix of the sequence of blocks.
use go_tpm.Base.{
  ltb-true, ℕ, zero, suc, ◌+◌, ◌%◌, ◌≤◌, ◌<◌, ◌≡◌, refl, ap, ◌∙◌, sym, arith, List, [], ◌∷◌, ◌++◌,
  some, ltb-false, length, take, append_assoc, append-nil, length-append,
}
use native.Mathlib.Decide.{dec_lt}
use go_tpm.Base.Bytes.{put_be}
use go_tpm.Tpm2.Kdf.{block, kdf_loop, mask_first, bytes_for, finish, kdf}

-- The first bytes of a list are those of what it begins with.
pub take-append_short : (n : ℕ) (xs ys : List ℕ) → n ≤ length xs → take n (xs ++ ys) ≡ take n xs
take-append_short zero xs ys h = refl
take-append_short (suc n) [] ys h = absurd (omega (arith, h))
take-append_short (suc n) (x ∷ xs) ys h =
    ap (λ rest. x ∷ rest) (take-append_short n xs ys (omega (arith, h)))

module _ (digest : List ℕ → List ℕ) (update : List ℕ) where
  -- So many blocks, from this counter on.
  abbrev pub blocks : ℕ → ℕ → List ℕ
  blocks counter zero = []
  blocks counter (suc k) = block digest update counter ++ blocks (suc counter) k

  module _ (size : ℕ) (length-digest : (b : List ℕ) → length (digest b) ≡ size) where
    -- With at least a byte in every digest, the loop ends with a list that begins as the blocks do.
    loop_ends :
        (n fuel counter : ℕ) (out : List ℕ)
        → 0 < size
        → n ≤ length out + fuel
        → (r : List ℕ) × (kdf_loop digest update n fuel counter out ≡ some r)
          × (take n r ≡ take n (out ++ blocks counter fuel))
    unfolding kdf_loop
    loop_ends n zero counter out some_bytes enough = (
      out,
      rw (ltb-false (length out) n (omega (arith, enough))) refl,
      ap (take n) (sym (append-nil out)),
    )
    loop_ends n (suc fuel) counter out some_bytes enough = elim (dec_lt (length out) n) [
      | no done ↦ (
        out,
        rw (ltb-false (length out) n (omega arith)) refl,
        sym (take-append_short n out (blocks counter (suc fuel)) (omega arith)),
      )
      | yes more ↦
          (let here = block digest update counter in
            let more_bytes : n ≤ length (out ++ here) + fuel =
              omega (arith, length-append out here, length-digest (put_be 4 counter ++ update)) in
            let (r, e, f) = loop_ends n fuel (suc counter) (out ++ here) some_bytes more_bytes in
            (
              r,
              rw (ltb-true (length out) n more, e) refl,
              f ∙ ap (take n) (append_assoc out here (blocks (suc counter) fuel)),
            ))
    ]

    -- Where every digest has the same number of bytes, and at least one, the derivation ends, and
    -- its output is the first (bits + 7) / 8 bytes of the digests of the counters 1, 2, 3 and so on,
    -- each with the same data, with the unused bits of the first byte cleared.
    pub kdf-blocks :
        (bits : ℕ)
        → 0 < size
        → kdf digest update bits
          ≡ some (mask_first (bits % 8) (take (bytes_for bits) (blocks 1 (bytes_for bits))))
    unfolding kdf
    kdf-blocks bits some_bytes =
        let n = bytes_for bits in
        let (r, e, f) = loop_ends n n 1 [] some_bytes (omega arith) in
        ap (finish bits) e ∙ ap (λ b. some (mask_first (bits % 8) b)) f

    pub length-blocks : (counter k : ℕ) → 0 < size → k ≤ length (blocks counter k)
    length-blocks counter zero some_bytes = omega arith
    length-blocks counter (suc k) some_bytes = omega (
      arith,
      length-append (block digest update counter) (blocks (suc counter) k),
      length-digest (put_be 4 counter ++ update),
      length-blocks (suc counter) k some_bytes,
    )
