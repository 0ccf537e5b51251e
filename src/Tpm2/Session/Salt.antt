-- ===== src/Tpm2/Session/Salt.antt =====
-- The salts of tpm2/sessions.go, with the conversions of keys in tpm2/crypto.go. What they use of
-- the Go library's cryptography, random numbers and a transport are a parameter.
use go_tpm.Base.{
  ℕ, ◌+◌, ◌*◌, List, [], ◌∷◌, ◌++◌, Option, none, some, ◌==◌, if◌then◌else◌, length, take, drop,
  inl, inr,
}
use go_tpm.Base.Bytes.{put_be, get_be}
use go_tpm.Base.Outcome.{ok, err, panic}
use go_tpm.Tpm2.Fault.{
  Res, wrong_union_member, unsupported_salt_scheme, unsupported_salt_key, unsupported_curve,
}
use go_tpm.Tpm2.Reflect.Types.{El, Choice}
use go_tpm.Tpm2.Structures.Asymmetric.{tpmu_asym_scheme, tpmt_rsa_scheme}
use go_tpm.Tpm2.Structures.Public.{
  tpmt_public, tpms_rsa_parms, tpms_ecc_parms, tpmu_public_parms, tpmu_public_id,
}
use go_tpm.Tpm2.Constants.{alg_rsa, alg_ecc, alg_rsassa, alg_rsaes, alg_rsapss, alg_oaep}
use go_tpm.Tpm2.Execute.Step.{Step, lift, ◌>>=◌}
use go_tpm.Tpm2.Session.Crypto.{Crypto, Hash, hash_of}
use go_tpm.Tpm2.Kdf.{kdfe_hash}

-- `rand.Read`, `rsa.EncryptOAEP`, `GenerateKey` with `ECDH` and the bytes of the new public key,
-- and AES in CFB mode; they change the state as the transport does.
pub record Platform (T : Type 0) : Type 0 where
  pub crypto : Crypto
  pub send : List ℕ → Step T (List ℕ)
  pub random : (n : ℕ) → Step T (List ℕ)
  pub encrypt_oaep : Hash → (modulus exponent : ℕ) → (message label : List ℕ) → Step T (List ℕ)
  pub ecdh : (curve x y : ℕ) → Step T (List ℕ × List ℕ)
  pub cfb_encrypt : (key iv parameter : List ℕ) → List ℕ
  pub cfb_decrypt : (key iv parameter : List ℕ) → List ℕ

-- "SECRET" with its trailing null byte.
abbrev pub secret_label : List ℕ
secret_label = 83 ∷ 69 ∷ 67 ∷ 82 ∷ 69 ∷ 84 ∷ []

-- The accessors RSASSA, RSAPSS and OAEP of the scheme's details, and the hash in them.
abbrev pub rsassa_hash : Option (Choice tpmu_asym_scheme) → Res ℕ
rsassa_hash (some (inl (alg, end))) = ok alg
rsassa_hash _ = err wrong_union_member

abbrev pub rsapss_hash : Option (Choice tpmu_asym_scheme) → Res ℕ
rsapss_hash (some (inr (inr (inl (alg, end))))) = ok alg
rsapss_hash _ = err wrong_union_member

abbrev pub oaep_hash : Option (Choice tpmu_asym_scheme) → Res ℕ
oaep_hash (some (inr (inr (inr (inl (alg, end)))))) = ok alg
oaep_hash _ = err wrong_union_member

abbrev pub alg_null : ℕ
alg_null = 0x10

-- The size of the salt depends on the hash of the scheme.
unfoldable pub salt_hash : ℕ → El tpmt_rsa_scheme → Res ℕ
salt_hash name_alg (scheme, (details, end)) =
    if scheme == alg_rsassa
    then rsassa_hash details
    else if scheme == alg_rsaes
    then ok name_alg
    else if scheme == alg_rsapss
    then rsapss_hash details
    else if scheme == alg_oaep
    then oaep_hash details
    else if scheme == alg_null
    then ok name_alg
    else err unsupported_salt_scheme

-- `RSAPub`: an exponent of 0 is the default.
abbrev pub rsa_exponent : ℕ → ℕ
rsa_exponent e = if e == 0 then 65537 else e

-- `ECDHCurve` and `elementLength`
abbrev pub element_length : ℕ → Res ℕ
element_length curve =
    if curve == 3
    then ok 32
    else if curve == 4
    then ok 48
    else if curve == 5
    then ok 66
    else err unsupported_curve

-- `big.Int.Bytes` of `SetBytes`: no leading zeros.
abbrev pub strip_zeros : List ℕ → List ℕ
strip_zeros [] = []
strip_zeros (x ∷ xs) = if x == 0 then strip_zeros xs else x ∷ xs

-- `kdf` ends within its fuel.
abbrev pub from_kdf : Option (List ℕ) → Res (List ℕ)
from_kdf none = panic
from_kdf (some b) = ok b

-- The accessors RSADetail and ECCDetail of the parameters, and RSA and ECC of the unique identifier.
abbrev pub rsa_detail : Option (Choice tpmu_public_parms) → Res (El tpms_rsa_parms)
rsa_detail (some (inr (inr (inl parms)))) = ok parms
rsa_detail _ = err wrong_union_member

abbrev pub ecc_detail : Option (Choice tpmu_public_parms) → Res (El tpms_ecc_parms)
ecc_detail (some (inr (inr (inr (inl parms))))) = ok parms
ecc_detail _ = err wrong_union_member

abbrev pub rsa_unique : Option (Choice tpmu_public_id) → Res (List ℕ)
rsa_unique (some (inr (inr (inl (n, end))))) = ok n
rsa_unique _ = err wrong_union_member

abbrev pub ecc_unique : Option (Choice tpmu_public_id) → Res (List ℕ × List ℕ)
ecc_unique (some (inr (inr (inr (inl ((x, end), ((y, end'), end₂))))))) = ok (x, y)
ecc_unique _ = err wrong_union_member

module _ {T : Type 0} (p : Platform T) where
  -- `getEncryptedSaltRSA`: the encrypted salt and the salt.
  unfoldable pub encrypted_salt_rsa : ℕ → El tpms_rsa_parms → List ℕ → Step T (List ℕ × List ℕ)
  encrypted_salt_rsa name_alg (symmetric, (scheme, (key_bits, (exponent, end)))) modulus = do
    alg ← lift (salt_hash name_alg scheme)
    ha ← lift (hash_of alg)
    salt ← p.random (p.crypto.size ha)
    enc ← p.encrypt_oaep ha (get_be modulus) (rsa_exponent exponent) salt (secret_label ++ 0 ∷ [])
    lift (ok (enc, salt))

  -- `getEncryptedSaltECC`: the first byte of the new public key says that it is uncompressed.
  unfoldable pub encrypted_salt_ecc :
      ℕ → El tpms_ecc_parms → List ℕ → List ℕ → Step T (List ℕ × List ℕ)
  encrypted_salt_ecc name_alg (symmetric, (scheme, (curve, (kdf, end)))) pub_x pub_y = do
    size ← lift (element_length curve)
    (key, z) ← p.ecdh curve (get_be pub_x) (get_be pub_y)
    let x = strip_zeros (take size (drop 1 key))
    let y = strip_zeros (drop (size + 1) key)
    ha ← lift (hash_of name_alg)
    salt ← lift (from_kdf (kdfe_hash p.crypto ha z secret_label x pub_x (p.crypto.size ha * 8)))
    lift (ok ((put_be 2 (length x) ++ x) ++ (put_be 2 (length y) ++ y), salt))

  -- `getEncryptedSalt`
  unfoldable pub encrypted_salt : El tpmt_public → Step T (List ℕ × List ℕ)
  unfolding encrypted_salt_rsa encrypted_salt_ecc
  encrypted_salt (type, (name_alg, (attrs, (policy, (parameters, (unique, end)))))) =
      if type == alg_rsa
      then (do
        parms ← lift (rsa_detail parameters)
        n ← lift (rsa_unique unique)
        encrypted_salt_rsa name_alg parms n)
      else if type == alg_ecc
      then (do
        parms ← lift (ecc_detail parameters)
        (x, y) ← lift (ecc_unique unique)
        encrypted_salt_ecc name_alg parms x y)
      else lift (err unsupported_salt_key)
