-- ===== src/Tpm2/Reflect/Limits.antt =====
-- What `unmarshal` does on input that `marshal` does not write.
use go_tpm.Base.{
  ℕ, zero, suc, ◌+◌, ◌≤◌, ◌<◌, ◌≡◌, List, [], ◌∷◌, ◌++◌, ◌*◌, none, some, ◌==◌, if◌then◌else◌,
  length, take, drop, All, arith, length-take, take-append-drop, ◌/◌, ◌%◌,
}
use native.Mathlib.Nat.{div-one}
use go_tpm.Base.Bytes.{IsByte, put_be, get_be, be_from}
use go_tpm.Base.Outcome.{ok, err, >>=-eq-ok}
use go_tpm.Tpm2.Fault.{Res, slice_too_long, eof, unexpected_eof}
use go_tpm.Tpm2.Reflect.Types.{Ty, El, slice, sized_2b}
use go_tpm.Tpm2.Reflect.Marshal.{marshal, bytes_2b}
use go_tpm.Tpm2.Reflect.Unmarshal.{
  read_num, read_size, read_2b, unmarshal_array, unmarshal, max_list_length, too_long,
}

length-unmarshal_array :
    {A : Type 0} (n : ℕ) (f : List ℕ → Res (A × List ℕ)) (b : List ℕ) {xs : List A} {rest : List ℕ}
    → unmarshal_array n f b ≡ ok (xs, rest)
    → length xs ≡ n
unfolding unmarshal_array
length-unmarshal_array zero f b e = ground arith
length-unmarshal_array (suc n) f b {xs} {rest} e =
    let (p, e₁, k) = >>=-eq-ok (f b) _ e in
    let (q, e₂, k₂) = >>=-eq-ok (unmarshal_array n f p.1) _ k in
    ground (arith, length-unmarshal_array n f p.1 e₂)

length-array_limit :
    {A : Type 0} (n : ℕ) (f : List ℕ → Res (A × List ℕ)) (b : List ℕ) {xs : List A} {rest : List ℕ}
    → (if too_long n then err slice_too_long else unmarshal_array n f b) ≡ ok (xs, rest)
    → length xs ≤ max_list_length
length-array_limit n f b {xs} {rest} e =
    let m : (unmarshal_array n f b ≡ ok (xs, rest)) → length xs ≡ n =
      length-unmarshal_array n f b in
    ground arith

-- A list that is read has at most 4096 elements.
pub length-unmarshal_slice :
    (t : Ty) (b : List ℕ) {xs : List (El t)} {rest : List ℕ}
    → unmarshal (slice t) b ≡ ok (xs, rest)
    → length xs ≤ max_list_length
unfolding unmarshal
length-unmarshal_slice t b e =
    let (p, e₁, k) = >>=-eq-ok (read_num 4 b) _ e in length-array_limit p.0 (unmarshal t) p.1 k

-- `TPM2B.unmarshal` on every input.
unmarshal-sized_2b_cases :
    (t : Ty) (b : List ℕ)
    → (length b < 2
        → unmarshal (sized_2b t) b ≡ ok (record { contents = none; buffer = some [] }, []))
      × (2 ≤ length b
          → length (drop 2 b) < get_be (take 2 b)
          → unmarshal (sized_2b t) b ≡ err (if length b == 2 then eof else unexpected_eof))
      × (2 ≤ length b
          → get_be (take 2 b) ≤ length (drop 2 b)
          → unmarshal (sized_2b t) b
            ≡ ok (
              record { contents = none; buffer = some (take (get_be (take 2 b)) (drop 2 b)) },
              drop (get_be (take 2 b)) (drop 2 b),
            ))
unfolding unmarshal read_2b read_size
unmarshal-sized_2b_cases t b = (λ h. ground arith, λ h l. ground arith, λ h l. ground arith)

-- A size with fewer bytes behind it than it says is an error.
pub unmarshal-sized_2b_short :
    (t : Ty) (b : List ℕ)
    → 2 ≤ length b
    → length (drop 2 b) < get_be (take 2 b)
    → unmarshal (sized_2b t) b ≡ err (if length b == 2 then eof else unexpected_eof)
unmarshal-sized_2b_short t b = (unmarshal-sized_2b_cases t b).1

put_be-get_be : (h l : ℕ) → IsByte h → IsByte l → put_be 2 (get_be (h ∷ l ∷ [])) ≡ h ∷ l ∷ []
unfolding put_be get_be be_from
put_be-get_be h l p q =
    let a : ((0 + h) * 256 + l) / 256 % 256 ≡ h = omega arith in
    let b : ((0 + h) * 256 + l) / 1 % 256 ≡ l = omega (arith, div-one (h * 256 + l)) in rw (a, b)

-- A buffer that starts with a size and has that many bytes behind it is read as a TPM2B, and
-- marshalling what was read gives back the bytes that were used.
pub marshal-unmarshal_2b :
    (t : Ty) (b : List ℕ)
    → All IsByte b
    → 2 ≤ length b
    → get_be (take 2 b) ≤ length (drop 2 b)
    → (v : El (sized_2b t)) × (rest w : List ℕ) × (unmarshal (sized_2b t) b ≡ ok (v, rest))
      × (marshal (sized_2b t) v ≡ ok w)
      × (w ++ rest ≡ b)
unfolding marshal bytes_2b
marshal-unmarshal_2b t (h ∷ l ∷ s) are_bytes enough fits =
    let n = get_be (h ∷ l ∷ []) in
    let m : length (take n s) ≡ n = omega (arith, length-take n s) in
    (
      record { contents = none; buffer = some (take n s) },
      drop n s,
      h ∷ l ∷ take n s,
      (unmarshal-sized_2b_cases t (h ∷ l ∷ s)).2 enough fits,
      rw (m, put_be-get_be h l are_bytes.0 are_bytes.1.0),
      rw (take-append-drop n s),
    )
marshal-unmarshal_2b t (h ∷ []) are_bytes enough fits = absurd (omega arith)
marshal-unmarshal_2b t [] are_bytes enough fits = absurd (omega arith)
