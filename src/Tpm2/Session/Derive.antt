-- ===== src/Tpm2/Session/Derive.antt =====
-- The session key and parameter encryption of tpm2/sessions.go.
pub mod Mirror
use go_tpm.Base.{
  ℕ, ◌+◌, ◌*◌, ◌/◌, Bool, true, false, not, ◌||◌, List, [], ◌∷◌, ◌++◌, Option, none, some, ◌==◌,
  if◌then◌else◌, length, take, drop, inl,
}
use go_tpm.Base.Outcome.{ok, err, panic, ◌>>=◌}
use go_tpm.Tpm2.Fault.{Res, wrong_union_member, unsupported_key_size}
use go_tpm.Tpm2.Reflect.Types.{El}
use go_tpm.Tpm2.Structures.Symmetric.{tpmt_sym_def}
use go_tpm.Tpm2.Session.Crypto.{Crypto, Hash, hash_of}
use go_tpm.Tpm2.Session.Password.{rh_null}
use go_tpm.Tpm2.Session.Options.{AuthSession}
use go_tpm.Tpm2.Session.Salt.{Platform, from_kdf}
use go_tpm.Tpm2.Kdf.{kdfa_hash}

-- "ATH" and "CFB"
abbrev pub ath_label : List ℕ
ath_label = 65 ∷ 84 ∷ 72 ∷ []

abbrev pub cfb_label : List ℕ
cfb_label = 67 ∷ 70 ∷ 66 ∷ []

-- `KeyBits.AES()`
abbrev pub aes_bits : El tpmt_sym_def → Res ℕ
aes_bits (alg, (some (inl bits), rest)) = ok bits
aes_bits _ = err wrong_union_member

-- `aes.NewCipher` takes keys of 16, 24 and 32 bytes.
abbrev pub is_aes_size : ℕ → Bool
is_aes_size n = n == 16 || n == 24 || n == 32

-- The parameter, ciphered in place.
abbrev pub ciphered :
    (List ℕ → List ℕ → List ℕ → List ℕ) → Res (List ℕ × List ℕ) → List ℕ → Res (List ℕ)
ciphered cfb (ok (key, iv)) b = ok (cfb key iv b)
ciphered cfb (err e) b = err e
ciphered cfb panic b = panic

module _ {T : Type 0} (p : Platform T) where
  -- Whether the session has a key of its own.
  abbrev pub has_key : AuthSession T → List ℕ → Bool
  has_key s salt = not (s.options.bind_handle == rh_null) || not (length salt == 0)

  -- The session key, or the old one.
  unfoldable pub derive_key : AuthSession T → List ℕ → Res (List ℕ)
  derive_key s salt =
      if has_key s salt
      then (do
        ha ← hash_of s.hash
        from_kdf (
            kdfa_hash p.crypto ha (s.options.bind_auth ++ salt) ath_label s.nonce_tpm s.nonce_caller
              (p.crypto.size ha * 8)))
      else ok s.session_key

  -- An HMAC session looks its hash up also where it has no key.
  abbrev pub check_hash : AuthSession T → Res (Unit {0})
  check_hash s = if s.is_policy then ok tt else (do ha ← hash_of s.hash; ok tt)

  -- The key and the initialisation vector of parameter encryption.
  unfoldable pub cipher_key : AuthSession T → List ℕ → List ℕ → Res (List ℕ × List ℕ)
  cipher_key s newer older = do
    bits ← aes_bits s.options.symmetric
    let n = bits / 8
    ha ← hash_of s.hash
    b ← from_kdf (
        kdfa_hash p.crypto ha (s.session_key ++ s.options.auth) cfb_label newer older
          ((n + 16) * 8))
    if is_aes_size n then ok (take n b, drop n b) else err unsupported_key_size

  -- `Encrypt` and `Decrypt`
  unfoldable pub encrypt : AuthSession T → List ℕ → Res (List ℕ)
  encrypt s b =
      if s.options.attrs.decrypt
      then ciphered p.cfb_encrypt (cipher_key s s.nonce_caller s.nonce_tpm) b
      else ok b

  unfoldable pub decrypt : AuthSession T → List ℕ → Res (List ℕ)
  decrypt s b =
      if s.options.attrs.encrypt
      then ciphered p.cfb_decrypt (cipher_key s s.nonce_tpm s.nonce_caller) b
      else ok b
