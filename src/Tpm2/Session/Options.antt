-- ===== src/Tpm2/Session/Options.antt =====
-- sessionOptions of tpm2/sessions.go, the functions that set them, and the structs hmacSession and
-- policySession with the functions that make them.
use go_tpm.Base.{ℕ, Bool, true, false, List, [], ◌∷◌, Option, none, some, inl}
use go_tpm.Tpm2.Reflect.Types.{El}
use go_tpm.Tpm2.Reflect.Marshal.{zero_value}
use go_tpm.Tpm2.Structures.Symmetric.{tpmt_sym_def}
use go_tpm.Tpm2.Structures.Public.{tpmt_public}
use go_tpm.Tpm2.Execute.Step.{Step}
use go_tpm.Tpm2.Session.Attributes.{Attributes, no_attributes}
use go_tpm.Tpm2.Session.Password.{rh_null}
use go_tpm.Tpm2.Session.Hmac.{Session}

pub record Options : Type 0 where
  pub auth : List ℕ
  pub password : Bool
  pub bind_handle : ℕ
  pub bind_name : List ℕ
  pub bind_auth : List ℕ
  pub salt_handle : ℕ
  pub salt_pub : El tpmt_public
  pub attrs : Attributes
  pub symmetric : El tpmt_sym_def
  pub trial_policy : Bool

-- `TPMTSymDef{Algorithm: TPMAlgNull}`
abbrev pub null_symmetric : El tpmt_sym_def
null_symmetric = (0x10, (none, (none, (none, tt))))

-- `defaultOptions`
abbrev pub default_options : Options
default_options = record {
  auth = [];
  password = false;
  bind_handle = rh_null;
  bind_name = [];
  bind_auth = [];
  salt_handle = rh_null;
  salt_pub = zero_value tpmt_public;
  attrs = no_attributes;
  symmetric = null_symmetric;
  trial_policy = false;
}

pub data Direction : Type 0 where
  encrypt_in encrypt_out encrypt_in_out : Direction

abbrev pub goes_in : Direction → Bool
goes_in encrypt_in = true
goes_in encrypt_out = false
goes_in encrypt_in_out = true

abbrev pub goes_out : Direction → Bool
goes_out encrypt_in = false
goes_out encrypt_out = true
goes_out encrypt_in_out = true

-- An AuthOption.
pub data AuthOption : Type 0 where
  auth_option : (auth : List ℕ) → AuthOption
  password_option : (auth : List ℕ) → AuthOption
  bound : (handle : ℕ) (name auth : List ℕ) → AuthOption
  salted : (handle : ℕ) (key : El tpmt_public) → AuthOption
  aes_encryption : (key_size : ℕ) (dir : Direction) → AuthOption
  audit_option audit_exclusive_option trial : AuthOption

-- AES in CFB mode.
abbrev pub aes_cfb : ℕ → El tpmt_sym_def
aes_cfb key_size = (6, (some (inl key_size), (some (inl 0x43), (none, tt))))

-- What the option does.
unfoldable pub set_option : AuthOption → Options → Options
set_option (auth_option a) o = record o { auth = a }
set_option (password_option a) o = record o { auth = a; password = true }
set_option (bound h n a) o = record o { bind_handle = h; bind_name = n; bind_auth = a }
set_option (salted h key) o = record o { salt_handle = h; salt_pub = key }
set_option (aes_encryption size dir) o = record o {
  attrs = record (o.attrs) { decrypt = goes_in dir; encrypt = goes_out dir };
  symmetric = aes_cfb size;
}
set_option audit_option o = record o { attrs = record (o.attrs) { audit = true } }
set_option audit_exclusive_option o = record o {
  attrs = record (o.attrs) { audit = true; audit_exclusive = true };
}
set_option trial o = record o { trial_policy = true }

unfoldable pub set_options : List AuthOption → Options → Options
unfolding set_option
set_options [] o = o
set_options (x ∷ xs) o = set_options xs (set_option x o)

-- hmacSession and policySession, over a TPM with states in `T`; only a policy session has a
-- callback, which is given the handle and the TPM's nonce.
pub record AuthSession (T : Type 0) : Type 0 where
  pub options : Options
  pub is_policy : Bool
  pub hash : ℕ
  pub nonce_size : ℕ
  pub handle : ℕ
  pub session_key : List ℕ
  pub nonce_caller : List ℕ
  pub nonce_tpm : List ℕ
  pub callback : Option (ℕ → List ℕ → Step T (Unit {0}))

module _ {T : Type 0} where
  abbrev pub new_session :
      Bool → ℕ → ℕ → Options → Option (ℕ → List ℕ → Step T (Unit {0})) → AuthSession T
  new_session is_policy hash nonce_size o callback = record {
    options = o;
    is_policy = is_policy;
    hash = hash;
    nonce_size = nonce_size;
    handle = rh_null;
    session_key = [];
    nonce_caller = [];
    nonce_tpm = [];
    callback = callback;
  }

  -- `HMAC` and `Policy`
  unfoldable pub hmac : ℕ → ℕ → List AuthOption → AuthSession T
  unfolding set_options
  hmac hash nonce_size opts =
      new_session false hash nonce_size (set_options opts default_options) none

  unfoldable pub policy : ℕ → ℕ → (ℕ → List ℕ → Step T (Unit {0})) → List AuthOption → AuthSession T
  unfolding set_options
  policy hash nonce_size callback opts =
      new_session true hash nonce_size (set_options opts default_options) (some callback)

  -- The sessions of `HMACSession` and `PolicySession`, before they are initialised.
  unfoldable pub reusable : Bool → ℕ → ℕ → List AuthOption → AuthSession T
  unfolding set_options
  reusable is_policy hash nonce_size opts =
      let o = set_options opts default_options in
      new_session is_policy hash nonce_size
        (record o { attrs = record (o.attrs) { continue_session = true } }) none

  -- What Authorize and Validate use.
  abbrev pub view : AuthSession T → Session
  view s = record {
    auth = s.options.auth;
    password = s.options.password;
    bind_name = s.options.bind_name;
    attrs = s.options.attrs;
    hash = s.hash;
    handle = s.handle;
    session_key = s.session_key;
    nonce_caller = s.nonce_caller;
    nonce_tpm = s.nonce_tpm;
  }

  -- What they change.
  abbrev pub put_back : AuthSession T → Session → AuthSession T
  put_back s v = record s { handle = v.handle; nonce_tpm = v.nonce_tpm }
