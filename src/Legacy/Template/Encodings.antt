-- ===== src/Legacy/Template/Encodings.antt =====
-- A public area that matches a template is encoded as the template is, but for the unique field.
use go_tpm.Base.{
  ℕ, ◌≡◌, ◌⊎◌, refl, ap, ◌∙◌, arith, Bool, true, false, not, ◌&&◌, ◌||◌, List, [], ◌∷◌, Option,
  none, some, ◌==◌, ==_iff, if◌then◌else◌, Bool-cases, inl, inr,
}
use go_tpm.Base.Outcome.{ok}
use go_tpm.Legacy.Wire.{Res}
use go_tpm.Legacy.Algorithm.{alg_rsa, alg_ecc, alg_keyed_hash, alg_sym_cipher, alg_hmac, alg_xor}
use go_tpm.Legacy.Scheme.{SymScheme, SigScheme, KdfScheme}
use go_tpm.Legacy.Public.{
  RsaParams, EccParams, SymCipherParams, KeyedHashParams, Public, encode_rsa_params,
  encode_ecc_params, encode_sym_cipher_params, encode_keyed_hash_params, encode_keyed_hash_alg,
  encode_parameters, encode_public,
}
use go_tpm.Legacy.Template.{
  bytes_equal, deep_equal, same_sym, same_sig, same_kdf, rsa_matches, ecc_matches,
  sym_cipher_matches, keyed_hash_matches, on_both, parameters_match, matches_template,
}

both_true : {a b : Bool} → (a && b) ≡ true → (a ≡ true) × (b ≡ true)
both_true {a = true} {b = true} h = (refl, refl)
both_true {a = true} {b = false} h = absurd (ground (arith, h))
both_true {a = false} {b = b} h = absurd (ground (arith, h))

eq_num : {a b : ℕ} → (a == b) ≡ true → a ≡ b
eq_num {a = a} {b = b} h = (==_iff a b).0 h

bytes_equal-same : (xs ys : List ℕ) → bytes_equal xs ys ≡ true → xs ≡ ys
unfolding bytes_equal
bytes_equal-same [] [] h = refl
bytes_equal-same [] (y ∷ ys) h = absurd (ground (arith, h))
bytes_equal-same (x ∷ xs) [] h = absurd (ground (arith, h))
bytes_equal-same (x ∷ xs) (y ∷ ys) h =
    let (a, b) = both_true h in
    ap (λ z. z ∷ xs) (eq_num a) ∙ ap (λ zs. y ∷ zs) (bytes_equal-same xs ys b)

deep_equal-same :
    {A : Type 0} (f : A → A → Bool) (same : (a b : A) → f a b ≡ true → a ≡ b) (o o' : Option A)
    → deep_equal f o o' ≡ true
    → o ≡ o'
deep_equal-same f same none none h = refl
deep_equal-same f same none (some b) h = absurd (ground (arith, h))
deep_equal-same f same (some a) none h = absurd (ground (arith, h))
deep_equal-same f same (some a) (some b) h = ap some (same a b h)

sym_same : (s t : SymScheme) → same_sym s t ≡ true → s ≡ t
sym_same s t h =
    let (a, h') = both_true h in
    let (b, c) = both_true h' in
    ap (λ x. record s { alg = x }) (eq_num a)
    ∙ ap (λ x. record t { key_bits = x; mode = s.mode }) (eq_num b)
    ∙ ap (λ x. record t { mode = x }) (eq_num c)

sig_same : (s t : SigScheme) → same_sig s t ≡ true → s ≡ t
sig_same s t h =
    let (a, h') = both_true h in
    let (b, c) = both_true h' in
    ap (λ x. record s { alg = x }) (eq_num a)
    ∙ ap (λ x. record t { hash = x; count = s.count }) (eq_num b)
    ∙ ap (λ x. record t { count = x }) (eq_num c)

kdf_same : (s t : KdfScheme) → same_kdf s t ≡ true → s ≡ t
kdf_same s t h =
    let (a, b) = both_true h in
    ap (λ x. record s { alg = x }) (eq_num a) ∙ ap (λ x. record t { hash = x }) (eq_num b)

-- The unique fields of the template.
abbrev pub replaced : {A : Type 0} → (A → A → A) → Option A → Option A → Option A
replaced f (some p) (some t) = some (f p t)
replaced f p t = p

abbrev pub with_unique : Public → Public → Public
with_unique p t = record p {
  rsa_parameters =
      replaced (λ q u. record q { modulus_raw = u.modulus_raw }) p.rsa_parameters t.rsa_parameters;
  ecc_parameters = replaced (λ q u. record q { point = u.point }) p.ecc_parameters t.ecc_parameters;
  sym_cipher_parameters =
      replaced (λ q u. record q { unique = u.unique }) p.sym_cipher_parameters
        t.sym_cipher_parameters;
  keyed_hash_parameters =
      replaced (λ q u. record q { unique = u.unique }) p.keyed_hash_parameters
        t.keyed_hash_parameters;
}

rsa_same :
    (p t : RsaParams)
    → rsa_matches p t ≡ true
    → encode_rsa_params (some (record p { modulus_raw = t.modulus_raw }))
      ≡ encode_rsa_params (some t)
unfolding encode_rsa_params
rsa_same p t h =
    let (a, h') = both_true h in
    let (b, h'') = both_true h' in
    let (c, d) = both_true h'' in
    let bits : p.key_bits ≡ t.key_bits = eq_num c in
    let exponent : p.exponent_raw ≡ t.exponent_raw = eq_num d in
    rw (
      deep_equal-same same_sym sym_same p.symmetric t.symmetric a,
      deep_equal-same same_sig sig_same p.sign t.sign b,
      bits,
      exponent,
    )

ecc_same :
    (p t : EccParams)
    → ecc_matches p t ≡ true
    → encode_ecc_params (some (record p { point = t.point })) ≡ encode_ecc_params (some t)
unfolding encode_ecc_params
ecc_same p t h =
    let (a, h') = both_true h in
    let (b, h'') = both_true h' in
    let (c, d) = both_true h'' in
    let curve : p.curve_id ≡ t.curve_id = eq_num c in
    rw (
      deep_equal-same same_sym sym_same p.symmetric t.symmetric a,
      deep_equal-same same_sig sig_same p.sign t.sign b,
      curve,
      deep_equal-same same_kdf kdf_same p.kdf t.kdf d,
    )

sym_cipher_same :
    (p t : SymCipherParams)
    → sym_cipher_matches p t ≡ true
    → encode_sym_cipher_params (some (record p { unique = t.unique }))
      ≡ encode_sym_cipher_params (some t)
unfolding encode_sym_cipher_params
sym_cipher_same p t h = rw (deep_equal-same same_sym sym_same p.symmetric t.symmetric h)

-- What is compared, by the algorithm of both.
keyed_cases :
    (p t : KeyedHashParams)
    → keyed_hash_matches p t ≡ true
    → (p.alg ≡ t.alg)
      × (((t.alg ≡ alg_hmac) × (p.hash ≡ t.hash))
          ⊎ ((t.alg ≡ alg_xor) × (p.hash ≡ t.hash) × (p.kdf ≡ t.kdf))
          ⊎ ((t.alg == alg_hmac ≡ false) × (t.alg == alg_xor ≡ false)))
keyed_cases p t h = elim (Bool-cases (p.alg == t.alg)) [
  | inr other ↦ (let h' = rw other at h in absurd (ground (arith, h')))
  | inl same ↦
      let alg : p.alg ≡ t.alg = eq_num same in
      let h' = rw (same, alg) at h in
      (
        alg,
        elim (Bool-cases (t.alg == alg_hmac)) [
          | inl e ↦ (let h'' = rw e at h' in inl (eq_num e, eq_num h''))
          | inr n ↦ elim (Bool-cases (t.alg == alg_xor)) [
            | inl e ↦
                (let (a, b) = both_true (rw (n, e) at h') in
                  inr (inl (eq_num e, eq_num a, eq_num b)))
            | inr m ↦ inr (inr (n, m))
          ]
        ],
      )
]

keyed_alg_same :
    (p t : KeyedHashParams) (u : List ℕ)
    → keyed_hash_matches p t ≡ true
    → encode_keyed_hash_alg (record p { unique = u }) ≡ encode_keyed_hash_alg t
unfolding encode_keyed_hash_alg
keyed_alg_same p t u h = by_case (keyed_cases p t h)
  where
    by_case :
        (p.alg ≡ t.alg)
          × (((t.alg ≡ alg_hmac) × (p.hash ≡ t.hash))
              ⊎ ((t.alg ≡ alg_xor) × (p.hash ≡ t.hash) × (p.kdf ≡ t.kdf))
              ⊎ ((t.alg == alg_hmac ≡ false) × (t.alg == alg_xor ≡ false)))
        → encode_keyed_hash_alg (record p { unique = u }) ≡ encode_keyed_hash_alg t
    by_case (alg, inl (e, hash)) = rw (alg, e, hash)
    by_case (alg, inr (inl (e, hash, kdf))) = rw (alg, e, hash, kdf)
    by_case (alg, inr (inr (n, m))) = rw (alg, n, m)

keyed_hash_same :
    (p t : KeyedHashParams)
    → keyed_hash_matches p t ≡ true
    → encode_keyed_hash_params (some (record p { unique = t.unique }))
      ≡ encode_keyed_hash_params (some t)
unfolding encode_keyed_hash_params
keyed_hash_same p t h = rw (keyed_alg_same p t t.unique h)

-- The parameters of one type.
on_both-replaced :
    {A : Type 0} (enc : Option A → Res (List ℕ)) (matches : A → A → Bool) (f : A → A → A)
    (same : (p t : A) → matches p t ≡ true → enc (some (f p t)) ≡ enc (some t)) (o o' : Option A)
    → on_both matches o o' ≡ ok true
    → enc (replaced f o o') ≡ enc o'
on_both-replaced enc matches f same none t h = absurd (cc)
on_both-replaced enc matches f same (some p) none h = absurd (cc)
on_both-replaced enc matches f same (some p) (some t) h = same p t cc

parameters_same :
    (p t : Public)
    → p.type ≡ t.type
    → parameters_match p t ≡ ok true
    → encode_parameters (with_unique p t) ≡ encode_parameters t
unfolding encode_parameters parameters_match
parameters_same p t type h = elim (Bool-cases (t.type == alg_rsa)) [
  | inl e ↦
      let is : t.type ≡ alg_rsa = eq_num e in
      rw (type, is)
        (on_both-replaced encode_rsa_params rsa_matches _ rsa_same p.rsa_parameters t.rsa_parameters
          (rw (type, is) at h))
  | inr n ↦ elim (Bool-cases (t.type == alg_ecc)) [
    | inl e ↦
        let is : t.type ≡ alg_ecc = eq_num e in
        rw (type, is)
          (on_both-replaced encode_ecc_params ecc_matches _ ecc_same p.ecc_parameters
            t.ecc_parameters (rw (type, is) at h))
    | inr n' ↦ remaining n n'
  ]
]
  where
    remaining :
        (t.type == alg_rsa) ≡ false
        → (t.type == alg_ecc) ≡ false
        → encode_parameters (with_unique p t) ≡ encode_parameters t
    remaining n n' = elim (Bool-cases (t.type == alg_sym_cipher)) [
      | inl e ↦
          let is : t.type ≡ alg_sym_cipher = eq_num e in
          rw (type, is)
            (on_both-replaced encode_sym_cipher_params sym_cipher_matches _ sym_cipher_same
              p.sym_cipher_parameters t.sym_cipher_parameters (rw (type, is) at h))
      | inr m ↦ elim (Bool-cases (t.type == alg_keyed_hash)) [
        | inl e ↦
            let is : t.type ≡ alg_keyed_hash = eq_num e in
            rw (type, is)
              (on_both-replaced encode_keyed_hash_params keyed_hash_matches _ keyed_hash_same
                p.keyed_hash_parameters t.keyed_hash_parameters (rw (type, is) at h))
        | inr m' ↦ rw (type, n, n', m, m')
      ]
    ]

unless_true :
    (a b c d : Bool) (x : Res Bool)
    → (if not a || (not b || (not c || not d)) then ok false else x) ≡ ok true
    → ((a ≡ true) × (b ≡ true) × (c ≡ true) × (d ≡ true)) × (x ≡ ok true)
unless_true true true true true x h = ((refl, refl, refl, refl), h)
unless_true true true true false x h = absurd (cc)
unless_true true true false d x h = absurd (cc)
unless_true true false c d x h = absurd (cc)
unless_true false b c d x h = absurd (cc)

-- When a public area matches a template, its encoding with the template's unique field in place of
-- its own is the template's encoding: MatchesTemplate compares all that is encoded but this field.
pub matches_template-encode_public :
    (p t : Public)
    → matches_template p t ≡ ok true
    → encode_public (with_unique p t) ≡ encode_public t
unfolding matches_template encode_public
matches_template-encode_public p t h =
    let ((a, b, c, d), matching) =
      unless_true (p.type == t.type) (p.name_alg == t.name_alg) (p.attributes == t.attributes)
        (bytes_equal p.auth_policy t.auth_policy) (parameters_match p t) h in
    let type : p.type ≡ t.type = eq_num a in
    let name : p.name_alg ≡ t.name_alg = eq_num b in
    let attributes : p.attributes ≡ t.attributes = eq_num c in
    let policy = bytes_equal-same p.auth_policy t.auth_policy d in
    rw (parameters_same p t type matching, type, name, attributes, policy)
