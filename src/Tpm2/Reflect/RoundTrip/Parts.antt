-- ===== src/Tpm2/Reflect/RoundTrip/Parts.antt =====
-- Writers and readers that agree, and the parts of `marshal` and `unmarshal` that do.
use go_tpm.Base.{
  ℕ, ◌^◌, ◌<◌, ◌≡◌, refl, false, List, [], ◌∷◌, ◌++◌, append_assoc, map, length, take, drop, ltb,
  All, arith, length-append, take-append, drop-append, ltb-false,
}
use go_tpm.Base.Bytes.{IsByte, put_be, length-put_be, get_be-put_be}
use go_tpm.Base.Outcome.{ok}
use go_tpm.Tpm2.Fault.{Res}
use go_tpm.Tpm2.Reflect.Marshal.{marshal_array}
use go_tpm.Tpm2.Reflect.Unmarshal.{read_num, read_sized, read_size, read_2b, unmarshal_array}
use native.Mathlib.Nat.{mod-eq_of_lt}
use mathlib.Core.Path.{subst}
use mathlib.Core.List.{map-id}

-- What `write` wrote, `read` reads back as `v`, whatever follows it.
pub record Agree {A : Type 0} (write : Res (List ℕ)) (read : List ℕ → Res (A × List ℕ)) (v : A)
    : Type 0 where
  pub bytes : List ℕ
  pub writes : write ≡ ok bytes
  pub reads : (rest : List ℕ) → read (bytes ++ rest) ≡ ok (v, rest)

module _ (w : ℕ) (b rest : List ℕ) (e : length b ≡ w) where
  take_front : take w (b ++ rest) ≡ b
  take_front = rw (← e) (take-append b rest)

  drop_front : drop w (b ++ rest) ≡ rest
  drop_front = rw (← e) (drop-append b rest)

  long_enough : ltb (length (b ++ rest)) w ≡ false
  long_enough = ltb-false (length (b ++ rest)) w (omega (arith, length-append b rest))

pub read_num-put_be :
    (w n : ℕ) (rest : List ℕ) → n < 256 ^ w → read_num w (put_be w n ++ rest) ≡ ok (n, rest)
unfolding read_num
read_num-put_be w n rest h = rw (
  long_enough w (put_be w n) rest (length-put_be w n),
  take_front w (put_be w n) rest (length-put_be w n),
  drop_front w (put_be w n) rest (length-put_be w n),
  get_be-put_be w n,
  mod-eq_of_lt h,
)

pub num-Agree : (w n : ℕ) → n < 256 ^ w → Agree (ok (put_be w n)) (read_num w) n
num-Agree w n h = record {
  bytes = put_be w n;
  writes = refl;
  reads = λ rest. read_num-put_be w n rest h;
}

read_size-put_be :
    (w n : ℕ) (rest : List ℕ) → n < 256 ^ w → read_size w (put_be w n ++ rest) ≡ (n, rest)
unfolding read_size
read_size-put_be w n rest h = rw (
  long_enough w (put_be w n) rest (length-put_be w n),
  take_front w (put_be w n) rest (length-put_be w n),
  drop_front w (put_be w n) rest (length-put_be w n),
  get_be-put_be w n,
  mod-eq_of_lt h,
)

pub read_sized-put_be :
    (w : ℕ) (b rest : List ℕ)
    → length b < 256 ^ w
    → read_sized w (put_be w (length b) ++ (b ++ rest)) ≡ ok (b, rest)
unfolding read_sized
read_sized-put_be w b rest h = rw (
  read_size-put_be w (length b) (b ++ rest) h,
  long_enough (length b) b rest refl,
  take-append b rest,
  drop-append b rest,
)

pub read_2b-put_be :
    (b rest : List ℕ)
    → length b < 2 ^ 16
    → read_2b (put_be 2 (length b) ++ (b ++ rest)) ≡ ok (b, rest)
unfolding read_2b
read_2b-put_be b rest h = rw (
  read_size-put_be 2 (length b) (b ++ rest) h,
  long_enough (length b) b rest refl,
  take-append b rest,
  drop-append b rest,
)

-- Writing the elements one after another, and reading as many.
module _ {A : Type 0} {P : A → Type 0} (f : A → Res (List ℕ)) (g : List ℕ → Res (A × List ℕ))
    (h : A → A) (one : (x : A) → P x → Agree (f x) g (h x)) where
  pub array-Agree :
      (xs : List A)
      → All P xs
      → Agree (marshal_array f xs) (unmarshal_array (length xs) g) (map h xs)
  unfolding marshal_array unmarshal_array
  array-Agree [] p = record { bytes = []; writes = refl; reads = λ rest. refl }
  array-Agree (x ∷ xs) (p, ps) =
      let head = one x p in
      let tail = array-Agree xs ps in
      record {
        bytes = head.bytes ++ tail.bytes;
        writes = rw (head.writes, tail.writes);
        reads = λ rest. rw (
          append_assoc head.bytes tail.bytes rest,
          head.reads (tail.bytes ++ rest),
          tail.reads rest,
        );
      }

-- One byte at a time.
pub bytes-Agree :
    (xs : List ℕ)
    → All IsByte xs
    → Agree (marshal_array (λ b. ok (put_be 1 b)) xs) (unmarshal_array (length xs) (read_num 1)) xs
bytes-Agree xs p =
    subst
      (Agree (marshal_array (λ b. ok (put_be 1 b)) xs) (unmarshal_array (length xs) (read_num 1)))
      (map-id xs)
      (array-Agree {P = IsByte} (λ b. ok (put_be 1 b)) (read_num 1) (λ b. b) (λ b. num-Agree 1 b) xs
        p)
