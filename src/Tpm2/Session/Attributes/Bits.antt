-- ===== src/Tpm2/Session/Attributes/Bits.antt =====
-- attrsToBytes of tpm2/sessions.go against marshalBitwise of tpm2/reflect.go.
use go_tpm.Base.{
  ℕ, ◌≡◌, refl, ap, ◌∙◌, arith, Bool, true, false, ◌&&◌, List, [], ◌∷◌, if◌then◌else◌,
}
use go_tpm.Base.Outcome.{ok, err, panic}
use go_tpm.Tpm2.Fault.{Res}
use go_tpm.Tpm2.Reflect.Types.{BitStruct}
use go_tpm.Tpm2.Reflect.Marshal.{marshal}
use go_tpm.Tpm2.Structures.Attributes.{tpma_session}
use go_tpm.Base.Bytes.{put_be}
use go_tpm.Tpm2.Reflect.Bitwise.{marshal_bitwise}
use go_tpm.Tpm2.Session.Hmac.{same_bytes}
use go_tpm.Tpm2.Session.Hmac.Protocol.{same_bytes_iff}
use go_tpm.Tpm2.Session.Attributes.{Attributes, attrs_to_bytes}

abbrev num_of : Bool → ℕ
num_of b = if b then 1 else 0

-- The value that reflection sees.
abbrev pub as_bits : Attributes → BitStruct
as_bits a = record {
  fields =
      num_of a.continue_session
      ∷ num_of a.audit_exclusive
      ∷ num_of a.audit_reset
      ∷ num_of a.decrypt
      ∷ num_of a.encrypt
      ∷ num_of a.audit
      ∷ [];
  reserved = a.reserved;
}

abbrev with_flags : Bool → Bool → Bool → Bool → Bool → Bool → Attributes
with_flags c x r d e a = record {
  continue_session = c;
  audit_exclusive = x;
  audit_reset = r;
  decrypt = d;
  encrypt = e;
  audit = a;
  reserved = 0;
}

-- Whether a test holds of both truth values.
for_all : (Bool → Bool) → Bool
for_all f = f true && f false

for_all-true : (f : Bool → Bool) → for_all f ≡ true → (b : Bool) → f b ≡ true
unfolding for_all
for_all-true f h true = ground arith
for_all-true f h false = ground arith

wrote : Res (List ℕ) → List ℕ → Bool
wrote (ok b) c = same_bytes b c
wrote (err e) c = false
wrote panic c = false

wrote-true : (m : Res (List ℕ)) (c : List ℕ) → wrote m c ≡ true → m ≡ ok c
unfolding wrote
wrote-true (ok b) c h = ap ok ((same_bytes_iff b c).0 h)
wrote-true (err e) c h = cc
wrote-true panic c h = cc

agrees : Bool → Bool → Bool → Bool → Bool → Bool → Bool
agrees c x r d e a =
    wrote (marshal tpma_session (as_bits (with_flags c x r d e a)))
      (attrs_to_bytes (with_flags c x r d e a))

always_agrees :
    for_all
      (λ c. for_all (λ x. for_all (λ r. for_all (λ d. for_all (λ e. for_all (agrees c x r d e))))))
    ≡ true
unfolding for_all agrees wrote marshal marshal_bitwise put_be
always_agrees = refl

-- An attribute structure without reserved bits is written by `attrsToBytes` as it is marshalled.
pub marshal-attributes :
    (a : Attributes) → a.reserved ≡ 0 → marshal tpma_session (as_bits a) ≡ ok (attrs_to_bytes a)
unfolding agrees
marshal-attributes a h =
    let c₁ = for_all-true _ always_agrees a.continue_session in
    let c₂ = for_all-true _ c₁ a.audit_exclusive in
    let c₃ = for_all-true _ c₂ a.audit_reset in
    let c₄ = for_all-true _ c₃ a.decrypt in
    let c₅ = for_all-true _ c₄ a.encrypt in
    let c₆ = for_all-true _ c₅ a.audit in
    let q : a
        ≡ with_flags a.continue_session a.audit_exclusive a.audit_reset a.decrypt a.encrypt
            a.audit =
      λ i. record {
        continue_session = a.continue_session;
        audit_exclusive = a.audit_exclusive;
        audit_reset = a.audit_reset;
        decrypt = a.decrypt;
        encrypt = a.encrypt;
        audit = a.audit;
        reserved = h i;
      } in
    ap (λ t. marshal tpma_session (as_bits t)) q ∙ wrote-true _ _ c₆
