-- ===== src/Tpm2/Session/Password/Responses.antt =====
-- pwSession of tpm2/sessions.go: the one response that is accepted.
use go_tpm.Base.{
  ℕ, ◌≡◌, refl, ap, ◌∙◌, sym, ◌↔◌, Bool, true, false, ◌&&◌, List, [], ◌∷◌, length, ◌==◌, arith,
  ==_iff, not_both,
}
use go_tpm.Base.Outcome.{ok}
use go_tpm.Tpm2.Session.Attributes.{Attributes}
use go_tpm.Tpm2.Session.Password.{
  AuthResponse, same_bool, same_attributes, only_continue, validate_pw,
}

same_bool-eq : (a b : Bool) → same_bool a b ≡ true → a ≡ b
same_bool-eq true b h = sym h
same_bool-eq false true h = h
same_bool-eq false false h = refl

split_and : (a b : Bool) → (a && b) ≡ true → (a ≡ true) × (b ≡ true)
split_and true b h = (refl, h)
split_and false b h = absurd (not_both h refl)

same_attributes-eq : (a b : Attributes) → same_attributes a b ≡ true → a ≡ b
same_attributes-eq a b h =
    let (h₆, n) = split_and _ (a.reserved == b.reserved) h in
    let (h₅, u) = split_and _ (same_bool a.audit b.audit) h₆ in
    let (h₄, e) = split_and _ (same_bool a.encrypt b.encrypt) h₅ in
    let (h₃, d) = split_and _ (same_bool a.decrypt b.decrypt) h₄ in
    let (h₂, r) = split_and _ (same_bool a.audit_reset b.audit_reset) h₃ in
    let (c, x) =
      split_and (same_bool a.continue_session b.continue_session)
        (same_bool a.audit_exclusive b.audit_exclusive) h₂ in
    λ i. record {
      continue_session = same_bool-eq a.continue_session b.continue_session c i;
      audit_exclusive = same_bool-eq a.audit_exclusive b.audit_exclusive x i;
      audit_reset = same_bool-eq a.audit_reset b.audit_reset r i;
      decrypt = same_bool-eq a.decrypt b.decrypt d i;
      encrypt = same_bool-eq a.encrypt b.encrypt e i;
      audit = same_bool-eq a.audit b.audit u i;
      reserved = (==_iff a.reserved b.reserved).0 n i;
    }

length-zero : (xs : List ℕ) → (length xs == 0) ≡ true → xs ≡ []
length-zero [] h = refl
length-zero (x ∷ xs) h = ground arith

checks-validate_pw :
    (auth : AuthResponse)
    → validate_pw auth ≡ ok tt
    → ((length auth.nonce == 0) ≡ true)
      × (same_attributes auth.attributes only_continue ≡ true)
      × ((length auth.authorization == 0) ≡ true)
unfolding validate_pw
checks-validate_pw auth h = (ground arith, ground arith, ground arith)

accepted :
    validate_pw (record { nonce = []; attributes = only_continue; authorization = [] }) ≡ ok tt
unfolding validate_pw
accepted = refl

-- A password session accepts exactly one response: no nonce, an empty authorization, and of the
-- attributes only that the session continues, the reserved bits included.
pub validate_pw-accepts :
    (auth : AuthResponse)
    → (validate_pw auth ≡ ok tt)
      ↔ (auth ≡ record { nonce = []; attributes = only_continue; authorization = [] })
validate_pw-accepts auth = (
  λ h.
      let (n, a, z) = checks-validate_pw auth h in
      λ i. record {
        nonce = length-zero auth.nonce n i;
        attributes = same_attributes-eq auth.attributes only_continue a i;
        authorization = length-zero auth.authorization z i;
      },
  λ e. ap validate_pw e ∙ accepted,
)
