-- ===== src/Tpm2/Session/Key/Trim.antt =====
-- What hmacKeyFromAuthValue leaves of an auth value.
use go_tpm.Base.{
  ℕ, zero, suc, ◌≤◌, ◌<◌, ◌≡◌, refl, ap, sym, ◌∙◌, Bool, true, false, ◌||◌, ◌&&◌, List, [], ◌∷◌,
  ◌++◌, ◌==◌, ltb, if◌then◌else◌, length, take, drop, get_or, replicate, arith, Bool-cases, inl,
  inr, length-take,
}
use go_tpm.Base.Outcome.{ok}
use go_tpm.Tpm2.Session.Key.{trim, hmac_key_from_auth_value}

abbrev pub has_zero : List ℕ → Bool
has_zero [] = false
has_zero (x ∷ xs) = (x == 0) || has_zero xs

-- The bytes up to the first zero byte.
abbrev pub before_zero : List ℕ → List ℕ
before_zero [] = []
before_zero (x ∷ xs) = if x == 0 then [] else x ∷ before_zero xs

abbrev pub all_zero : List ℕ → Bool
all_zero [] = true
all_zero (x ∷ xs) = (x == 0) && all_zero xs

-- The key of the specification: the auth value without the zero bytes at its end.
abbrev pub trim_zeros : List ℕ → List ℕ
trim_zeros [] = []
trim_zeros (x ∷ xs) = if all_zero (x ∷ xs) then [] else x ∷ trim_zeros xs

-- Whether all zero bytes stand at the end.
abbrev pub zeros_trail : List ℕ → Bool
zeros_trail [] = true
zeros_trail (x ∷ xs) = if x == 0 then all_zero xs else zeros_trail xs

pub before_zero-trim_zeros : (xs : List ℕ) → zeros_trail xs ≡ true → before_zero xs ≡ trim_zeros xs
before_zero-trim_zeros [] h = refl
before_zero-trim_zeros (x ∷ xs) h = elim (Bool-cases (x == 0)) [
  | inl z ↦ (let h' = rw z at h in rw (z, h'))
  | inr n ↦ (let h' = rw n at h in rw (n, before_zero-trim_zeros xs h'))
]

before_zero-take :
    (i : ℕ) (key : List ℕ)
    → i < length key
    → (get_or key i 0 == 0) ≡ true
    → before_zero (take i key) ≡ before_zero key
before_zero-take i [] h z = absurd (omega arith)
before_zero-take zero (x ∷ xs) h z = ground arith
before_zero-take (suc i) (x ∷ xs) h z = rw (before_zero-take i xs (omega arith) z)

has_zero-drop-take : (i : ℕ) (key : List ℕ) → has_zero (drop i (take i key)) ≡ false
has_zero-drop-take zero key = refl
has_zero-drop-take (suc i) [] = refl
has_zero-drop-take (suc i) (x ∷ xs) = has_zero-drop-take i xs

has_zero-drop :
    (i : ℕ) (key : List ℕ)
    → i < length key
    → (get_or key i 0 == 0) ≡ false
    → has_zero (drop (suc i) key) ≡ false
    → has_zero (drop i key) ≡ false
has_zero-drop i [] h n k = absurd (omega arith)
has_zero-drop zero (x ∷ xs) h n k = ground arith
has_zero-drop (suc i) (x ∷ xs) h n k = has_zero-drop i xs (omega arith) n k

has_zero-drop-length : (key : List ℕ) → has_zero (drop (length key) key) ≡ false
has_zero-drop-length [] = refl
has_zero-drop-length (x ∷ xs) = has_zero-drop-length xs

before_zero-zero_free : (key : List ℕ) → has_zero key ≡ false → before_zero key ≡ key
before_zero-zero_free [] h = refl
before_zero-zero_free (x ∷ xs) h = ground (arith, before_zero-zero_free xs)

-- The loop keeps what stands before the first zero byte, and leaves no zero byte.
before_zero-trim :
    (i : ℕ) (key : List ℕ)
    → i ≤ length key
    → has_zero (drop i key) ≡ false
    → (r : List ℕ) × (trim i key ≡ ok r) × (before_zero r ≡ before_zero key) × (has_zero r ≡ false)
unfolding trim
before_zero-trim zero key h k = (key, refl, refl, k)
before_zero-trim (suc i) key h k =
    let inside : ltb i (length key) ≡ true = ground arith in
    elim (Bool-cases (get_or key i 0 == 0)) [
      | inl z ↦
          let (r, e, b, f) =
            before_zero-trim i (take i key) (omega (arith, length-take i key))
              (has_zero-drop-take i key) in
          (r, rw (inside, z, e), b ∙ before_zero-take i key (omega arith) z, f)
      | inr n ↦
          let (r, e, b, f) =
            before_zero-trim i key (omega arith) (has_zero-drop i key (omega arith) n k) in
          (r, rw (inside, n, e), b, f)
    ]

-- The key of an auth value is what stands before its first zero byte, and no index is out of
-- range.
pub hmac_key_from_auth_value-before_zero :
    (auth : List ℕ) → hmac_key_from_auth_value auth ≡ ok (before_zero auth)
unfolding hmac_key_from_auth_value
hmac_key_from_auth_value-before_zero auth =
    let (r, e, b, f) =
      before_zero-trim (length auth) auth (omega arith) (has_zero-drop-length auth) in
    e ∙ ap ok (sym (before_zero-zero_free r f) ∙ b)

zeros_after : (k : ℕ) → before_zero (replicate k 0) ≡ []
zeros_after zero = refl
zeros_after (suc k) = refl

before_zero-append :
    (xs ys : List ℕ) → has_zero xs ≡ false → before_zero ys ≡ [] → before_zero (xs ++ ys) ≡ xs
before_zero-append [] ys h k = k
before_zero-append (x ∷ xs) ys h k = ground (arith, before_zero-append xs ys)

-- An auth value whose zero bytes are all at its end loses exactly these.
pub hmac_key_from_auth_value-trailing :
    (xs : List ℕ) (k : ℕ)
    → has_zero xs ≡ false
    → hmac_key_from_auth_value (xs ++ replicate k 0) ≡ ok xs
hmac_key_from_auth_value-trailing xs k h =
    hmac_key_from_auth_value-before_zero (xs ++ replicate k 0)
    ∙ ap ok (before_zero-append xs (replicate k 0) h (zeros_after k))

-- Auth values without a zero byte have the same key with a zero byte and any bytes behind them:
-- a zero byte cuts off the bytes behind it, whether or not these are zeros.
pub hmac_key_from_auth_value-cut :
    (xs ys : List ℕ)
    → has_zero xs ≡ false
    → hmac_key_from_auth_value (xs ++ (0 ∷ ys)) ≡ hmac_key_from_auth_value xs
hmac_key_from_auth_value-cut xs ys h =
    hmac_key_from_auth_value-before_zero (xs ++ (0 ∷ ys))
    ∙ ap ok (before_zero-append xs (0 ∷ ys) h refl ∙ sym (before_zero-zero_free xs h))
    ∙ sym (hmac_key_from_auth_value-before_zero xs)
