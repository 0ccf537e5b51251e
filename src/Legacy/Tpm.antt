-- ===== src/Legacy/Tpm.antt =====
-- runCommand of legacy/tpm2/tpm2.go, over a TPM that is given the packed commands, and what the
-- commands share: the authorization area and the capabilities.
use go_tpm.Base.{
  ℕ, zero, suc, Bool, List, [], ◌∷◌, ◌++◌, Option, none, some, ◌==◌, ltb, if◌then◌else◌, length,
}
use go_tpm.Base.Outcome.{Result, ok, err, panic, ◌>>=◌}
use go_tpm.Tpm2.Reflect.Types.{w8, w16, w32}
use go_tpm.Tpmutil.Encoding as Encoding
use go_tpm.Tpmutil.Encoding.{Values, Value, value, no_values, num, u16_bytes, struct}
use go_tpm.Tpmutil.Run.{Answer}
use go_tpm.Tpmutil.Command.{CommandError, run_command, pack_with_header}
use go_tpm.Legacy.ResponseCode.{ResponseError, decode_response}
use go_tpm.Legacy.Wire.{Res, pack, unpack_num, running, response, unsupported_capability}
use go_tpm.Legacy.Selection.{Selection, decode_selections}

-- A TPM in a state `T`: the outcomes of the tries of a command, and the state that it leaves.
pub record Tpm (T : Type 0) : Type 0 where
  pub answers : T → List ℕ → ℕ → Answer
  pub after : T → List ℕ → T

abbrev pub Step : Type 0 → Type 0 → Type 0
Step T A = T → T × Res A

abbrev pub continue : {T A B : Type 0} → T × Res A → (A → Step T B) → T × Res B
continue (t, ok a) next = next a t
continue (t, err e) next = (t, err e)
continue (t, panic) next = (t, panic)

abbrev pub lift : {T A : Type 0} → Res A → Step T A
lift r t = (t, r)

abbrev pub without_code : List ℕ → Option ResponseError → Res (List ℕ)
without_code b none = ok b
without_code b (some e) = err (response e)

abbrev pub body : Option (List ℕ) → List ℕ
body none = []
body (some b) = b

abbrev pub outcome : Result CommandError (Option (List ℕ) × ℕ) → Res (List ℕ)
outcome (ok (b, code)) = without_code (body b) (decode_response code)
outcome (err e) = err (running e)
outcome panic = panic

abbrev pub state_after : {T : Type 0} → Tpm T → T → Encoding.Res (List ℕ) → T
state_after tpm t (ok inb) = tpm.after t inb
state_after tpm t _ = t

-- `runCommand`
unfoldable pub run : {T : Type 0} → Tpm T → (tag cmd : ℕ) → Values → Step T (List ℕ)
run tpm tag cmd args t = (
  state_after tpm t (pack_with_header tag cmd args),
  outcome (run_command (tpm.answers t) tag cmd args),
)

abbrev pub tag_no_sessions : ℕ
tag_no_sessions = 0x8001

abbrev pub tag_sessions : ℕ
tag_sessions = 0x8002

-- AuthCommand, and the one for a password.
pub record AuthCommand : Type 0 where
  pub session : ℕ
  pub nonce : List ℕ
  pub attributes : ℕ
  pub auth : List ℕ

abbrev pub password_auth : List ℕ → AuthCommand
password_auth auth = record { session = 0x40000009; nonce = []; attributes = 1; auth = auth }

abbrev pub auth_value : AuthCommand → Value
auth_value a = struct (
    value (num w32 a.session) (
      value (u16_bytes a.nonce) (value (num w8 a.attributes) (value (u16_bytes a.auth) no_values))))

-- `encodeAuthArea`
unfoldable pub pack_auths : List AuthCommand → Res (List ℕ)
pack_auths [] = ok []
pack_auths (a ∷ auths) = do
  b ← pack (value (auth_value a) no_values)
  bs ← pack_auths auths
  ok (b ++ bs)

unfoldable pub encode_auth_area : List AuthCommand → Res (List ℕ)
unfolding pack_auths
encode_auth_area auths = do
  b ← pack_auths auths
  size ← pack (value (num w32 (length b)) no_values)
  ok (size ++ b)

-- What a capability holds.
pub data CapabilityItem : Type 0 where
  handle : ℕ → CapabilityItem
  algorithm : (id attributes : ℕ) → CapabilityItem
  property : (tag number : ℕ) → CapabilityItem
  pcr_selection : Selection → CapabilityItem

abbrev pub capability_algs : ℕ
capability_algs = 0

abbrev pub capability_handles : ℕ
capability_handles = 1

abbrev pub capability_pcrs : ℕ
capability_pcrs = 5

abbrev pub capability_tpm_properties : ℕ
capability_tpm_properties = 6

unfoldable pub read_handle : List ℕ → Res (CapabilityItem × List ℕ)
read_handle b = do (h, b₁) ← unpack_num w32 b; ok (handle h, b₁)

unfoldable pub read_algorithm : List ℕ → Res (CapabilityItem × List ℕ)
read_algorithm b = do
  (id, b₁) ← unpack_num w16 b
  (attributes, b₂) ← unpack_num w32 b₁
  ok (algorithm id attributes, b₂)

unfoldable pub read_property : List ℕ → Res (CapabilityItem × List ℕ)
read_property b = do
  (tag, b₁) ← unpack_num w32 b
  (number, b₂) ← unpack_num w32 b₁
  ok (property tag number, b₂)

unfoldable pub read_items :
    (List ℕ → Res (CapabilityItem × List ℕ)) → ℕ → List ℕ → Res (List CapabilityItem)
read_items read zero b = ok []
read_items read (suc n) b = do (i, b₁) ← read b; is ← read_items read n b₁; ok (i ∷ is)

abbrev pub counted_items :
    (List ℕ → Res (CapabilityItem × List ℕ)) → List ℕ → Res (List CapabilityItem)
counted_items read b = do (n, b₁) ← unpack_num w32 b; read_items read n b₁

unfoldable pub read_selections : List ℕ → Res (List CapabilityItem)
read_selections b = do (ss, b₁) ← decode_selections b; ok (go_tpm.Base.map pcr_selection ss)

-- `decodeGetCapability`
unfoldable pub decode_items_of : ℕ → List ℕ → Res (List CapabilityItem)
unfolding read_handle read_algorithm read_property read_items read_selections
decode_items_of capability b =
    if capability == capability_handles
    then counted_items read_handle b
    else if capability == capability_algs
    then counted_items read_algorithm b
    else if capability == capability_tpm_properties
    then counted_items read_property b
    else if capability == capability_pcrs
    then read_selections b
    else err unsupported_capability

unfoldable pub decode_get_capability : List ℕ → Res (List CapabilityItem × Bool)
unfolding decode_items_of
decode_get_capability b = do
  (more, b₁) ← unpack_num w8 b
  (capability, b₂) ← unpack_num w32 b₁
  items ← decode_items_of capability b₂
  ok (items, ltb 0 more)
