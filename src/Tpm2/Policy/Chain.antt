-- ===== src/Tpm2/Policy/Chain.antt =====
-- tpm2/policy.go: the digest of a policy.
use go_tpm.Base.{ℕ, ◌≡◌, refl, ap, ◌∙◌, List, [], ◌∷◌, ◌++◌, length, All}
use go_tpm.Base.Outcome.{ok, err, panic}
use go_tpm.Tpm2.Fault.{Res}
use go_tpm.Tpm2.Reflect.Valid.{Valid}
use go_tpm.Tpm2.Reflect.RoundTrip.{unmarshal-marshal}
use go_tpm.Tpm2.Session.Crypto.{Crypto}
use go_tpm.Tpm2.Policy.{PolicyCalculator, Datum, marshal_all, with_state, reset, absorb, update}

marshal_all-Valid :
    (ds : List Datum) → All (λ d. Valid d.0 d.1) ds → (b : List ℕ) × (marshal_all ds ≡ ok b)
unfolding marshal_all
marshal_all-Valid [] h = ([], refl)
marshal_all-Valid (d ∷ ds) h =
    let (b, w, r) = unmarshal-marshal d.0 d.1 [] h.0 in
    let (bs, ws) = marshal_all-Valid ds h.1 in (b ++ bs, rw (w, ws))

-- The updates of a policy one after the other; the errors are left out.
abbrev pub run : Crypto → PolicyCalculator → List (List Datum) → PolicyCalculator
run crypto p [] = p
run crypto p (ds ∷ rest) = run crypto (update crypto p ds).0 rest

-- The digest that is extended by a list of byte strings, each the sum of the digest before it and
-- the string.
abbrev pub extend : (List ℕ → List ℕ) → List ℕ → List (List ℕ) → List ℕ
extend sum digest [] = digest
extend sum digest (b ∷ bs) = extend sum (sum (digest ++ b)) bs

abbrev pub Marshalled : List (List Datum) → List (List ℕ) → Type 0
Marshalled [] [] = Unit
Marshalled [] (b ∷ bs) = ⊥
Marshalled (ds ∷ us) [] = ⊥
Marshalled (ds ∷ us) (b ∷ bs) = (marshal_all ds ≡ ok b) × Marshalled us bs

module _ (crypto : Crypto) where
  update-marshalled :
      (p : PolicyCalculator) (ds : List Datum) {b : List ℕ}
      → marshal_all ds ≡ ok b
      → update crypto p ds ≡ (with_state p (crypto.sum p.hash (p.state ++ b)), ok tt)
  unfolding update
  update-marshalled p ds e = ap (absorb crypto p) e

  -- Updates with valid data never fail to marshal them, and a sequence of such updates leaves the
  -- policy's digest extended by what the data of each update are marshalled to, in this order.
  pub run-extend :
      (p : PolicyCalculator) (us : List (List Datum))
      → All (All (λ d. Valid d.0 d.1)) us
      → (bs : List (List ℕ)) × Marshalled us bs
        × (run crypto p us ≡ with_state p (extend (crypto.sum p.hash) p.state bs))
  run-extend p [] h = ([], tt, refl)
  run-extend p (ds ∷ us) h =
      let (b, w) = marshal_all-Valid ds h.0 in
      let next = with_state p (crypto.sum p.hash (p.state ++ b)) in
      let (bs, m, e) = run-extend next us h.1 in
      (b ∷ bs, (w, m), ap (λ u. run crypto u.0 us) (update-marshalled p ds w) ∙ e)

  abbrev pub IsSized : PolicyCalculator → Type 0
  IsSized p = length p.state ≡ crypto.size p.hash

  absorb-IsSized :
      (p : PolicyCalculator) (m : Res (List ℕ)) → IsSized p → IsSized (absorb crypto p m).0
  absorb-IsSized p (ok b) h = crypto.length-sum p.hash (p.state ++ b)
  absorb-IsSized p (err e) h = h
  absorb-IsSized p panic h = h

  -- The digest has the size of its hash function after any update, whether or not its data could
  -- be marshalled, and resetting the calculator then gives the calculator that resetting it before
  -- the update gives.
  pub update-IsSized :
      (p : PolicyCalculator) (ds : List Datum)
      → IsSized p
      → IsSized (update crypto p ds).0 × (reset crypto (update crypto p ds).0 ≡ reset crypto p)
  unfolding update reset
  update-IsSized p ds h = (absorb-IsSized p (marshal_all ds) h, same (marshal_all ds))
    where
      same : (m : Res (List ℕ)) → reset crypto (absorb crypto p m).0 ≡ reset crypto p
      same (ok b) = refl
      same (err e) = refl
      same panic = refl
