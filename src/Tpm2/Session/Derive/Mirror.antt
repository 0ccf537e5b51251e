-- ===== src/Tpm2/Session/Derive/Mirror.antt =====
-- Parameter encryption: the two ends of a session, and the session key.
use go_tpm.Base.{ℕ, ◌≡◌, sym, Bool, true, false, List, if◌then◌else◌}
use go_tpm.Base.Outcome.{ok, err, panic}
use go_tpm.Tpm2.Fault.{Res}
use go_tpm.Tpm2.Session.Options.{AuthSession}
use go_tpm.Tpm2.Session.Salt.{Platform}
use go_tpm.Tpm2.Session.Derive.{cipher_key, ciphered, encrypt, decrypt}

-- The other end of a session: what one end sends is newer for the other, and is decrypted there.
abbrev pub mirror : {T : Type 0} → AuthSession T → AuthSession T
mirror s = record s {
  options = record (s.options) {
    attrs = record (s.options.attrs) {
      decrypt = s.options.attrs.encrypt;
      encrypt = s.options.attrs.decrypt;
    };
  };
  nonce_caller = s.nonce_tpm;
  nonce_tpm = s.nonce_caller;
}

module _ {T : Type 0} (p : Platform T)
    (inverse : (key iv b : List ℕ) → p.cfb_decrypt key iv (p.cfb_encrypt key iv b) ≡ b) where
  ciphered-ciphered :
      (k : Res (List ℕ × List ℕ)) (b c : List ℕ)
      → ciphered p.cfb_encrypt k b ≡ ok c
      → ciphered p.cfb_decrypt k c ≡ ok b
  ciphered-ciphered (ok (key, iv)) b c e =
      let same : p.cfb_encrypt key iv b ≡ c = cc in rw (← same, inverse key iv b)
  ciphered-ciphered (err f) b c e = absurd (cc)
  ciphered-ciphered panic b c e = absurd (cc)

  either_way :
      (d : Bool) (k : Res (List ℕ × List ℕ)) (b c : List ℕ)
      → (if d then ciphered p.cfb_encrypt k b else ok b) ≡ ok c
      → (if d then ciphered p.cfb_decrypt k c else ok c) ≡ ok b
  either_way true k b c e = ciphered-ciphered k b c e
  either_way false k b c e = sym e

  -- When decryption of the cipher undoes its encryption, a parameter that Encrypt returns is
  -- decrypted by Decrypt at the other end of the session: the keys and the initialisation vectors
  -- agree, and where the session does not cipher, both leave the parameter alone.
  pub decrypt-encrypt :
      (s : AuthSession T) (b c : List ℕ) → encrypt p s b ≡ ok c → decrypt p (mirror s) c ≡ ok b
  unfolding encrypt decrypt cipher_key
  decrypt-encrypt s b c sent =
      either_way s.options.attrs.decrypt (cipher_key p s s.nonce_caller s.nonce_tpm) b c sent
