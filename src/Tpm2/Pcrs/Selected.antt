-- ===== src/Tpm2/Pcrs/Selected.antt =====
-- tpm2/pcrs.go: which bits of the mask are set.
use go_tpm.Base.{
  not_both, ℕ, zero, suc, ◌/◌, ◌%◌, ◌^◌, ◌≤◌, ◌<◌, ◌≡◌, refl, ap, ◌∙◌, sym, Bool, true, false, ◌||◌,
  List, [], ◌∷◌, bit_or, ◌==◌, ltb, if◌then◌else◌, length, replicate, get_or, set, All, arith,
  Bool-cases, get_or-set_self, get_or-set_ne, length-set, inl, inr, ==_iff,
}
use Prim.Native.Nat.{max}
use mathlib.Core.Path.{subst}
use go_tpm.Base.Bits.{bit, bit-bit_or, bit-zero, bit-pow_self, bit-pow_ne, bit-lt}
use go_tpm.Base.Outcome.{ok}
use go_tpm.Tpm2.Pcrs.{max_pcr, selection_size, mark, pcrs}

-- Whether a mask selects a PCR, as the TPM's specification has it: PCR `n` is bit `n % 8` of byte
-- `n / 8`.
abbrev pub is_selected : List ℕ → ℕ → Bool
is_selected selection n = bit (n % 8) (get_or selection (n / 8) 0) == 1

abbrev pub contains : List ℕ → ℕ → Bool
contains [] n = false
contains (pcr ∷ pcrs) n = (pcr == n) || contains pcrs n

-- Setting the bit of one PCR selects that one as well.
pub is_selected-set :
    (selection : List ℕ) (pcr n : ℕ)
    → pcr / 8 < length selection
    → is_selected
        (set selection (pcr / 8) (bit_or (get_or selection (pcr / 8) 0) (2 ^ (pcr % 8))))
        n
      ≡ ((pcr == n) || is_selected selection n)
is_selected-set selection pcr n h =
    let old = get_or selection (pcr / 8) 0 in
    let mask = 2 ^ (pcr % 8) in
    let new = set selection (pcr / 8) (bit_or old mask) in
    let b = n % 8 in
    elim (Bool-cases (pcr / 8 == n / 8)) [
      | inl s ↦
          let same : pcr / 8 ≡ n / 8 = ground (arith, s) in
          let now : get_or new (n / 8) 0 ≡ bit_or old mask =
            ap (λ j. get_or new j 0) (sym same)
            ∙ get_or-set_self selection (pcr / 8) (bit_or old mask) 0 h in
          let was : bit b (get_or selection (n / 8) 0) ≡ bit b old =
            ap (λ j. bit b (get_or selection j 0)) (sym same) in
          let is : bit b (get_or new (n / 8) 0) ≡ max (bit b old) (bit b mask) =
            ap (bit b) now ∙ bit-bit_or b old mask in
          elim (Bool-cases (pcr % 8 == b)) [
            | inl t ↦
                let here : pcr % 8 ≡ b = ground (arith, t) in
                let one : bit b mask ≡ 1 = ap (λ k. bit b (2 ^ k)) here ∙ bit-pow_self b in
                ground (arith, is, was, one, bit-lt b old, same, here)
            | inr t ↦
                let one : bit b mask ≡ 0 =
                  bit-pow_ne b (pcr % 8) (λ e. not_both ((==_iff (pcr % 8) b).1 (sym e)) t) in
                ground (arith, is, was, one, bit-lt b old, same, t)
          ]
      | inr d ↦
          let keep : get_or new (n / 8) 0 ≡ get_or selection (n / 8) 0 =
            get_or-set_ne selection (pcr / 8) (n / 8) (bit_or old mask) 0
              (λ e. not_both ((==_iff (pcr / 8) (n / 8)).1 e) d) in
          let apart : (pcr == n) ≡ false = ground (arith, d) in rw (keep, apart)
    ]

pub or_swap : (a b c : Bool) → (a || (b || c)) ≡ ((b || a) || c)
or_swap true true c = refl
or_swap true false c = refl
or_swap false true c = refl
or_swap false false c = refl

-- The second loop, on a mask that has a byte for every PCR.
mark-selected :
    (indices selection : List ℕ)
    → All (λ pcr. pcr / 8 < length selection) indices
    → (s : List ℕ) × (mark indices selection ≡ ok s)
      × (length s ≡ length selection)
      × ((n : ℕ) → is_selected s n ≡ (contains indices n || is_selected selection n))
unfolding mark
mark-selected [] selection h = (selection, refl, refl, λ n. refl)
mark-selected (pcr ∷ indices) selection h =
    let new = set selection (pcr / 8) (bit_or (get_or selection (pcr / 8) 0) (2 ^ (pcr % 8))) in
    let size : length new ≡ length selection =
      length-set selection (pcr / 8) (bit_or (get_or selection (pcr / 8) 0) (2 ^ (pcr % 8))) in
    let inside : ltb (pcr / 8) (length selection) ≡ true = ground (arith, h.0) in
    let (s, e, l, f) =
      mark-selected indices new (subst (λ k. All (λ pcr. pcr / 8 < k) indices) (sym size) h.1) in
    (
      s,
      rw inside e,
      l ∙ size,
      λ n.
          f n
          ∙ ap (λ t. contains indices n || t) (is_selected-set selection pcr n h.0)
          ∙ or_swap (contains indices n) (pcr == n) (is_selected selection n),
    )

max_pcr-bounds :
    (largest : ℕ) (indices : List ℕ)
    → (largest ≤ max_pcr largest indices) × All (λ pcr. pcr ≤ max_pcr largest indices) indices
unfolding max_pcr
max_pcr-bounds largest [] = (omega arith, tt)
max_pcr-bounds largest (pcr ∷ indices) =
    let next = if ltb largest pcr then pcr else largest in
    let (b, all) = max_pcr-bounds next indices in (ground (arith, b), (ground (arith, b), all))

All-inside :
    (m k : ℕ) (indices : List ℕ)
    → m / 8 < k
    → All (λ pcr. pcr ≤ m) indices
    → All (λ pcr. pcr / 8 < k) indices
All-inside m k [] h a = tt
All-inside m k (pcr ∷ indices) h a =
    let x : pcr ≤ m = a.0 in (omega arith, All-inside m k indices h a.1)

pub length-replicate : (k : ℕ) → length {A = ℕ} (replicate k 0) ≡ k
length-replicate zero = refl
length-replicate (suc k) = ap suc (length-replicate k)

get_or-replicate : (k i : ℕ) → get_or {A = ℕ} (replicate k 0) i 0 ≡ 0
get_or-replicate zero i = refl
get_or-replicate (suc k) zero = refl
get_or-replicate (suc k) (suc i) = get_or-replicate k i

pub is_selected-replicate : (k n : ℕ) → is_selected (replicate k 0) n ≡ false
is_selected-replicate k n = rw (get_or-replicate k (n / 8), bit-zero (n % 8))

pub or_false : (a : Bool) → (a || false) ≡ a
or_false true = refl
or_false false = refl

-- Whatever the PCRs, a mask of at least 3 bytes is returned, no index being out of range, and it
-- selects exactly these PCRs.
pub pcrs-selected :
    (indices : List ℕ)
    → (s : List ℕ) × (pcrs indices ≡ ok s)
      × (3 ≤ length s)
      × ((n : ℕ) → is_selected s n ≡ contains indices n)
unfolding pcrs
pcrs-selected indices =
    let k = selection_size indices in
    let (b, all) = max_pcr-bounds 0 indices in
    let big : (max_pcr 0 indices / 8 < k) × (3 ≤ k) = ground arith in
    let size = length-replicate k in
    let (s, e, l, f) = mark-selected indices (replicate k 0) (
      subst (λ j. All (λ pcr. pcr / 8 < j) indices) (sym size)
        (All-inside (max_pcr 0 indices) k indices big.0 all)) in
    (
      s,
      e,
      omega (arith, l, size, big.1),
      λ n.
          f n
          ∙ ap (λ t. contains indices n || t) (is_selected-replicate k n)
          ∙ or_false (contains indices n),
    )
