-- ===== src/Legacy/Template.antt =====
-- MatchesTemplate of legacy/tpm2/structures.go. The methods of the parameters read the fields of
-- both, and panic on a nil pointer.
pub mod Encodings
use go_tpm.Base.{
  ℕ, Bool, true, false, not, ◌&&◌, ◌||◌, List, [], ◌∷◌, Option, none, some, ◌==◌, if◌then◌else◌,
}
use go_tpm.Base.Outcome.{ok, panic}
use go_tpm.Legacy.Wire.{Res}
use go_tpm.Legacy.Algorithm.{alg_rsa, alg_ecc, alg_keyed_hash, alg_sym_cipher, alg_hmac, alg_xor}
use go_tpm.Legacy.Scheme.{SymScheme, SigScheme, KdfScheme}
use go_tpm.Legacy.Public.{RsaParams, EccParams, SymCipherParams, KeyedHashParams, Public}

-- `bytes.Equal`
unfoldable pub bytes_equal : List ℕ → List ℕ → Bool
bytes_equal [] [] = true
bytes_equal [] (y ∷ ys) = false
bytes_equal (x ∷ xs) [] = false
bytes_equal (x ∷ xs) (y ∷ ys) = x == y && bytes_equal xs ys

-- `reflect.DeepEqual` of two pointers to structs.
abbrev pub deep_equal : {A : Type 0} → (A → A → Bool) → Option A → Option A → Bool
deep_equal f none none = true
deep_equal f none (some b) = false
deep_equal f (some a) none = false
deep_equal f (some a) (some b) = f a b

abbrev pub same_sym : SymScheme → SymScheme → Bool
same_sym s t = s.alg == t.alg && (s.key_bits == t.key_bits && s.mode == t.mode)

abbrev pub same_sig : SigScheme → SigScheme → Bool
same_sig s t = s.alg == t.alg && (s.hash == t.hash && s.count == t.count)

abbrev pub same_kdf : KdfScheme → KdfScheme → Bool
same_kdf s t = s.alg == t.alg && s.hash == t.hash

-- The methods matchesTemplate.
abbrev pub rsa_matches : RsaParams → RsaParams → Bool
rsa_matches p t =
    deep_equal same_sym p.symmetric t.symmetric
    && (deep_equal same_sig p.sign t.sign
        && (p.key_bits == t.key_bits && p.exponent_raw == t.exponent_raw))

abbrev pub ecc_matches : EccParams → EccParams → Bool
ecc_matches p t =
    deep_equal same_sym p.symmetric t.symmetric
    && (deep_equal same_sig p.sign t.sign
        && (p.curve_id == t.curve_id && deep_equal same_kdf p.kdf t.kdf))

abbrev pub sym_cipher_matches : SymCipherParams → SymCipherParams → Bool
sym_cipher_matches p t = deep_equal same_sym p.symmetric t.symmetric

abbrev pub keyed_hash_matches : KeyedHashParams → KeyedHashParams → Bool
keyed_hash_matches p t =
    if not (p.alg == t.alg)
    then false
    else if p.alg == alg_hmac
    then p.hash == t.hash
    else if p.alg == alg_xor
    then p.hash == t.hash && p.kdf == t.kdf
    else true

abbrev pub on_both : {A : Type 0} → (A → A → Bool) → Option A → Option A → Res Bool
on_both f none t = panic
on_both f (some p) none = panic
on_both f (some p) (some t) = ok (f p t)

-- `MatchesTemplate`
unfoldable pub parameters_match : Public → Public → Res Bool
parameters_match p t =
    if p.type == alg_rsa
    then on_both rsa_matches p.rsa_parameters t.rsa_parameters
    else if p.type == alg_ecc
    then on_both ecc_matches p.ecc_parameters t.ecc_parameters
    else if p.type == alg_sym_cipher
    then on_both sym_cipher_matches p.sym_cipher_parameters t.sym_cipher_parameters
    else if p.type == alg_keyed_hash
    then on_both keyed_hash_matches p.keyed_hash_parameters t.keyed_hash_parameters
    else ok true

unfoldable pub matches_template : Public → Public → Res Bool
unfolding bytes_equal parameters_match
matches_template p t =
    if not (p.type == t.type)
      || (not (p.name_alg == t.name_alg)
          || (not (p.attributes == t.attributes) || not (bytes_equal p.auth_policy t.auth_policy)))
    then ok false
    else parameters_match p t
