-- ===== src/Tpm2/Policy/Branches.antt =====
-- tpm2/tpm2.go: what the commands of a policy leave in the policy's digest.
use go_tpm.Base.{
  ℕ, ◌≡◌, refl, ap, ◌∙◌, sym, true, false, List, [], ◌∷◌, ◌++◌, Option, none, some, replicate,
  append-nil, All,
}
use go_tpm.Base.Bytes.{IsByte, put_be}
use go_tpm.Base.Outcome.{ok, err, panic}
use go_tpm.Tpm2.Fault.{Res}
use go_tpm.Tpm2.Reflect.Marshal.{marshal}
use go_tpm.Tpm2.Reflect.RoundTrip.Fields.{bytes_written}
use go_tpm.Tpm2.Session.Crypto.{Crypto, Hash, hash_of}
use go_tpm.Tpm2.Policy.{PolicyCalculator, Datum, reset, update, absorb, marshal_all, with_state}
use go_tpm.Tpm2.Policy.Commands.{
  PolicyCommand, policy_signed, policy_secret, policy_or, policy_pcr, policy_auth_value,
  policy_duplication_select, policy_nv, policy_command_code, policy_cp_hash, policy_authorize,
  policy_nv_written, policy_authorize_nv, data_bytes, joined, and_then, direct_name, with_name,
  policy_update, policy_nv_update, step, run_policy,
}

-- The calculators of the same algorithm and hash function.
abbrev Alike : PolicyCalculator → PolicyCalculator → Type 0
Alike p q = (p.alg ≡ q.alg) × (p.hash ≡ q.hash)

module _ (crypto : Crypto) where
  absorb-Alike : (p : PolicyCalculator) (m : Res (List ℕ)) → Alike (absorb crypto p m).0 p
  absorb-Alike p (ok b) = (refl, refl)
  absorb-Alike p (err e) = (refl, refl)
  absorb-Alike p panic = (refl, refl)

  update-Alike : (p : PolicyCalculator) (ds : List Datum) → Alike (update crypto p ds).0 p
  unfolding update
  update-Alike p ds = absorb-Alike p (marshal_all ds)

  and_then-Alike :
      (p : PolicyCalculator) (r : PolicyCalculator × Res (Unit {0}))
      (next : PolicyCalculator → PolicyCalculator × Res (Unit {0}))
      → Alike r.0 p
      → ((q : PolicyCalculator) → Alike (next q).0 q)
      → Alike (and_then r next).0 p
  and_then-Alike p (q, ok done) next (h, k) later = ((later q).0 ∙ h, (later q).1 ∙ k)
  and_then-Alike p (q, err e) next h later = h
  and_then-Alike p (q, panic) next h later = h

  with_name-Alike :
      (p q : PolicyCalculator) (name : Option (List ℕ))
      (next : List ℕ → PolicyCalculator × Res (Unit {0}))
      → Alike q p
      → ((known : List ℕ) → Alike (next known).0 p)
      → Alike (with_name q name next).0 p
  with_name-Alike p q none next h later = h
  with_name-Alike p q (some known) next h later = later known

  policy_update-Alike :
      (p : PolicyCalculator) (cc : ℕ) (a b : List ℕ) → Alike (policy_update crypto p cc a b).0 p
  unfolding policy_update
  policy_update-Alike p cc a b =
      and_then-Alike p _ _ (update-Alike p _) (λ q. update-Alike q (data_bytes b ∷ []))

  policy_nv_update-Alike :
      (p : PolicyCalculator) (name : Option (List ℕ)) (args : List ℕ) (h : Res Hash)
      → Alike (policy_nv_update crypto p name args h).0 p
  policy_nv_update-Alike p name args (ok h) =
      with_name-Alike p p name _ (refl, refl) (λ known. update-Alike p _)
  policy_nv_update-Alike p name args (err e) = (refl, refl)
  policy_nv_update-Alike p name args panic = (refl, refl)

  and_then-eq-ok :
      (r : PolicyCalculator × Res (Unit {0}))
      (next : PolicyCalculator → PolicyCalculator × Res (Unit {0})) {p' : PolicyCalculator}
      → and_then r next ≡ (p', ok tt)
      → (q : PolicyCalculator) × (r ≡ (q, ok tt)) × (next q ≡ (p', ok tt))
  and_then-eq-ok (q, ok done) next h = (q, refl, h)
  and_then-eq-ok (q, err e) next h = cc
  and_then-eq-ok (q, panic) next h = cc

  -- The calculator after a PolicyOR.
  abbrev pub after_or : List (List ℕ) → PolicyCalculator → PolicyCalculator
  after_or digests p =
      with_state p
        (crypto.sum p.hash (replicate (crypto.size p.hash) 0 ++ (put_be 4 0x171 ++ joined digests)))

  step-or :
      (S : Type 0) (digests : List (List ℕ)) (p : PolicyCalculator)
      → All IsByte (joined digests)
      → step crypto {S = S} (policy_or digests) p ≡ (after_or digests p, ok tt)
  unfolding step update reset marshal_all marshal
  step-or S digests p whole =
      rw (bytes_written (joined digests) whole, append-nil (joined digests)) refl

  module _ {S : Type 0} where
    step-Alike : (c : PolicyCommand S) (p : PolicyCalculator) → Alike (step crypto c p).0 p
    unfolding step reset
    step-Alike (policy_signed h r) p =
        with_name-Alike p p (direct_name h) _ (refl, refl) (λ n. policy_update-Alike p 0x160 n r)
    step-Alike (policy_secret h r) p =
        with_name-Alike p p (direct_name h) _ (refl, refl) (λ n. policy_update-Alike p 0x151 n r)
    step-Alike (policy_or digests) p = update-Alike (reset crypto p) _
    step-Alike (policy_pcr d s) p = update-Alike p _
    step-Alike policy_auth_value p = update-Alike p _
    step-Alike (policy_duplication_select o n true) p = update-Alike p _
    step-Alike (policy_duplication_select o n false) p = update-Alike p _
    step-Alike (policy_nv h b o n) p =
        policy_nv_update-Alike p (direct_name h) (b ++ (put_be 2 o ++ put_be 2 n)) (hash_of p.alg)
    step-Alike (policy_command_code k) p = update-Alike p _
    step-Alike (policy_cp_hash d) p = update-Alike p _
    step-Alike (policy_authorize r k) p = policy_update-Alike p 0x16a k r
    step-Alike (policy_nv_written w) p = update-Alike p _
    step-Alike (policy_authorize_nv h) p =
        with_name-Alike p (reset crypto p) (direct_name h) _ (refl, refl)
          (λ n. update-Alike (reset crypto p) _)

    -- A policy that has run without an error has kept the algorithm, and the rest runs on from it.
    run_policy-append :
        (before after : List (PolicyCommand S)) (p p' : PolicyCalculator)
        → run_policy crypto before p ≡ (p', ok tt)
        → Alike p' p × (run_policy crypto (before ++ after) p ≡ run_policy crypto after p')
    unfolding run_policy
    run_policy-append [] after p p' h =
        let e : p ≡ p' = ap (λ r. r.0) h in
        ((ap (λ q. q.alg) (sym e), ap (λ q. q.hash) (sym e)), ap (run_policy crypto after) e)
    run_policy-append (c ∷ before) after p p' h =
        let (q, e, f) = and_then-eq-ok (step crypto c p) (run_policy crypto before) h in
        let ((alg, hash), g) = run_policy-append before after q p' f in
        let (alg₁, hash₁) = step-Alike c p in
        let same : (step crypto c p).0 ≡ q = ap (λ r. r.0) e in
        (
          (alg ∙ (ap (λ x. x.alg) (sym same) ∙ alg₁), hash ∙ (ap (λ x. x.hash) (sym same) ∙ hash₁)),
          ap (λ r. and_then r (run_policy crypto (before ++ after))) e ∙ g,
        )

    -- A PolicyOR forgets what the commands before it have made of the digest, provided they have
    -- run without an error and its digests are bytes: the policy goes on from the sum of zeros, the
    -- command's code and the digests one after the other.
    pub run_policy-or :
        (before after : List (PolicyCommand S)) (digests : List (List ℕ)) (p p' : PolicyCalculator)
        → All IsByte (joined digests)
        → run_policy crypto before p ≡ (p', ok tt)
        → run_policy crypto (before ++ policy_or digests ∷ after) p
          ≡ run_policy crypto after (
              with_state p (
                crypto.sum p.hash
                  (replicate (crypto.size p.hash) 0 ++ (put_be 4 0x171 ++ joined digests))))
    unfolding run_policy
    run_policy-or before after digests p p' whole ran =
        let ((alg, hash), e) = run_policy-append before (policy_or digests ∷ after) p p' ran in
        e
        ∙ ap (λ r. and_then r (run_policy crypto after)) (step-or S digests p' whole)
        ∙ ap (run_policy crypto after) (λ i. record {
          alg = alg i;
          hash = hash i;
          state =
              crypto.sum (hash i)
                (replicate (crypto.size (hash i)) 0 ++ (put_be 4 0x171 ++ joined digests));
        })
