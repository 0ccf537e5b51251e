-- ===== src/Tpm2/Session/Open/Exchange.antt =====
-- The StartAuthSession command of tpm2/sessions.go on the wire, and the TPM's answer to it.
use go_tpm.Base.{
  ℕ, String, ◌&&◌, if◌then◌else◌, ◌+◌, ◌%◌, ◌^◌, ◌<◌, ◌≤◌, ◌≡◌, refl, ap, arith, Bool, true, false,
  List, [], ◌∷◌, ◌++◌, ◌==◌, none, some, length, All, append-nil, inl, inr,
}
use go_tpm.Base.Bytes.{put_be, IsByte}
use go_tpm.Base.Outcome.{ok}
use go_tpm.Tpm2.Fault.{Res}
use go_tpm.Tpm2.Reflect.Types.{plain, num, Width, size_of, w8, w16, w32, w64}
use go_tpm.Tpm2.Reflect.Selectors.{alg_null, rh_null}
use go_tpm.Tpm2.Reflect.Marshal.{marshal, marshal_array, nullable_form}
use go_tpm.Tpm2.Reflect.Unmarshal.{max_list_length}
use go_tpm.Tpm2.Reflect.Valid.{Valid, settle}
use go_tpm.Tpm2.Structures.Basic.{tpm2b_data, tpm2b_nonce}
use go_tpm.Tpm2.Structures.Symmetric.{tpmt_sym_def}
use go_tpm.Tpm2.Structures.Auth.{tpm_rsp_header}
use go_tpm.Tpm2.Command.{handle_out, parm_out}
use go_tpm.Tpm2.Command.Arguments.{cmd_auths, cmd_handles, marshal_argument, parm_arg}
use go_tpm.Tpm2.Command.Order.{marshal_each, parms_of}
use go_tpm.Tpm2.Commands.Sessions.{start_auth_session_command}
use go_tpm.Tpm2.Execute.{cmd_header}
use go_tpm.Tpm2.Execute.Layout.{marshal_field-num, marshal-cmd_header}
use go_tpm.Tpm2.Execute.Answers.{execute-answered}
use go_tpm.Tpm2.Execute.Passwords.{password_sessions}
use go_tpm.Tpm2.Execute.Request.Parameters.{cmd_parameters-plain}
use go_tpm.Tpm2.Execute.Response.{Slot}
use go_tpm.Tpm2.Execute.Response.RoundTrip.{marshal_slots}
use go_tpm.Tpm2.Execute.Run.{init_all, authorization_area, request}
use go_tpm.Tpm2.Session.Options.{AuthSession}
use go_tpm.Tpm2.Session.Salt.{Platform}
use go_tpm.Tpm2.Session.Open.{session_type, start_arguments, start_auth_session}

-- A TPM2B.
abbrev pub sized_bytes : List ℕ → List ℕ
sized_bytes b = put_be 2 (length b) ++ b

-- The parameters of StartAuthSession: the nonce, the encrypted salt, the type of session, the
-- symmetric algorithm, and the hash algorithm.
abbrev pub start_parameters : {T : Type 0} → AuthSession T → (nonce enc symmetric : List ℕ) → List ℕ
start_parameters s nonce enc symmetric =
    sized_bytes nonce
    ++ (sized_bytes enc ++ (put_be 1 (session_type s) ++ (symmetric ++ put_be 2 s.hash)))

-- A StartAuthSession command: its header with the command's length, the handles of the salt key and
-- of the bind object, and the parameters.
abbrev pub start_command : {T : Type 0} → AuthSession T → (nonce enc symmetric : List ℕ) → List ℕ
start_command s nonce enc symmetric =
    let parms = start_parameters s nonce enc symmetric in
    put_be 2 0x8001
    ++ (put_be 4 ((18 + length parms) % 2 ^ 32)
        ++ (put_be 4 0x176
            ++ (put_be 4 s.options.salt_handle ++ (put_be 4 s.options.bind_handle ++ parms))))

-- The TPM's answer: a header with the response code 0, the handle and the nonce.
abbrev pub start_answer : (tag size handle : ℕ) (nonce : List ℕ) → List ℕ
start_answer tag size handle nonce =
    put_be 2 tag ++ (put_be 4 size ++ (put_be 4 0 ++ (put_be 4 handle ++ sized_bytes nonce)))

abbrev the_bytes : List ℕ → Res (List ℕ)
the_bytes = ok

not_null_form :
    (b : Bool) (form out : List ℕ)
    → elim (if b && false then some form else none) [ some f ↦ ok f | none ↦ ok out ]
      ≡ the_bytes out
not_null_form true form out = refl
not_null_form false form out = refl

put_byte : (b : ℕ) → IsByte b → put_be 1 b ≡ b ∷ []
unfolding put_be
put_byte b h = ap (λ n. n ∷ []) (omega (arith, h))

marshal_array-bytes :
    (b : List ℕ) → All IsByte b → marshal_array (λ x. ok (put_be 1 x)) b ≡ the_bytes b
unfolding marshal_array
marshal_array-bytes [] h = refl
marshal_array-bytes (x ∷ xs) (h, hs) = rw (put_byte x h, marshal_array-bytes xs hs)

marshal-tpm2b_data :
    (b : List ℕ) → All IsByte b → marshal tpm2b_data (b, tt) ≡ the_bytes (sized_bytes b)
unfolding marshal nullable_form
marshal-tpm2b_data b h = rw (marshal_array-bytes b h, append-nil (sized_bytes b))

marshal-rsp_header :
    (tag n code : ℕ)
    → marshal tpm_rsp_header (tag, (n, (code, tt)))
      ≡ the_bytes (put_be 2 tag ++ (put_be 4 n ++ put_be 4 code))
unfolding marshal
marshal-rsp_header tag n code = rw (
  marshal_field-num w16 tag,
  marshal_field-num w32 n,
  marshal_field-num w32 code,
  append-nil (put_be 4 code),
)

number-argument :
    (x : String) (w : Width) (n : ℕ)
    → marshal_argument {S = List ℕ} (parm_arg x plain (num w) n) ≡ the_bytes (put_be (size_of w) n)
unfolding marshal_argument marshal nullable_form
number-argument x w8 n = refl
number-argument x w16 n = not_null_form (n == 0) (put_be 2 alg_null) (put_be 2 n)
number-argument x w32 n = not_null_form (n == 0) (put_be 4 rh_null) (put_be 4 n)
number-argument x w64 n = refl

data-argument :
    (x : String) (b : List ℕ)
    → All IsByte b
    → marshal_argument {S = List ℕ} (parm_arg x plain tpm2b_data (b, tt))
      ≡ the_bytes (sized_bytes b)
unfolding marshal_argument nullable_form
data-argument x b h = marshal-tpm2b_data b h

symmetric-argument :
    {T : Type 0} (s : AuthSession T) (symmetric : List ℕ)
    → marshal tpmt_sym_def s.options.symmetric ≡ ok symmetric
    → marshal_argument {S = List ℕ} (parm_arg "Symmetric" plain tpmt_sym_def s.options.symmetric)
      ≡ the_bytes symmetric
unfolding marshal_argument nullable_form
symmetric-argument s symmetric e = e

marshal_each-start :
    {T : Type 0} (s : AuthSession T) (enc symmetric : List ℕ)
    → All IsByte s.nonce_caller
    → All IsByte enc
    → marshal tpmt_sym_def s.options.symmetric ≡ ok symmetric
    → marshal_each (parms_of (start_arguments s enc))
      ≡ the_bytes (start_parameters s s.nonce_caller enc symmetric)
marshal_each-start s enc symmetric h k e = rw (
  data-argument "NonceCaller" s.nonce_caller h,
  data-argument "EncryptedSalt" enc k,
  number-argument "SessionType" w8 (session_type s),
  symmetric-argument s symmetric e,
  number-argument "AuthHash" w16 s.hash,
  append-nil (put_be 2 s.hash),
)

-- What is sent for StartAuthSession.
request-start :
    {T : Type 0} (s : AuthSession T) (enc symmetric : List ℕ) (t : T)
    → All IsByte s.nonce_caller
    → All IsByte enc
    → marshal tpmt_sym_def s.options.symmetric ≡ ok symmetric
    → request (password_sessions _) 0x176 (start_arguments s enc) [] t
      ≡ (t, ok (start_command s s.nonce_caller enc symmetric, []))
unfolding request init_all authorization_area cmd_handles cmd_header put_be
request-start s enc symmetric t h k e = rw (
  cmd_parameters-plain (password_sessions _) (start_arguments s enc) [] t refl tt,
  marshal_each-start s enc symmetric h k e,
  marshal-cmd_header 0x8001
      ((18 + length (start_parameters s s.nonce_caller enc symmetric)) % 2 ^ 32) 0x176,
)

-- The fields of the answer.
abbrev handle_slots : ℕ → List Slot
handle_slots h = (handle_out "SessionHandle" (num w32), h) ∷ []

abbrev nonce_slots : List ℕ → List Slot
nonce_slots nonce = (parm_out "NonceTPM" plain tpm2b_nonce, (nonce, tt)) ∷ []

marshal_slots-handle : (h : ℕ) → marshal_slots (handle_slots h) ≡ the_bytes (put_be 4 h)
unfolding marshal put_be
marshal_slots-handle h = refl

marshal_slots-nonce :
    (nonce : List ℕ)
    → All IsByte nonce
    → marshal_slots (nonce_slots nonce) ≡ the_bytes (sized_bytes nonce)
marshal_slots-nonce nonce h = rw (marshal-tpm2b_data nonce h, append-nil (sized_bytes nonce))

nonce-Valid :
    (nonce : List ℕ)
    → All IsByte nonce
    → length nonce ≤ max_list_length
    → Valid tpm2b_nonce (nonce, tt)
nonce-Valid nonce h k = ((tt, tt), (refl, inr (inl (refl, inl (refl, refl, k), h)), tt))

length-sized_bytes : (b : List ℕ) → length (sized_bytes b ++ []) ≡ 2 + length b
unfolding put_be
length-sized_bytes b = rw (append-nil b) (omega arith)

-- StartAuthSession sends its command, and returns the handle and the nonce of the answer.
pub start_auth_session-answered :
    {T : Type 0} (p : Platform T) (s : AuthSession T) (enc symmetric nonce : List ℕ)
    (tag size h : ℕ) (t t' : T)
    → All IsByte s.nonce_caller
    → All IsByte enc
    → marshal tpmt_sym_def s.options.symmetric ≡ ok symmetric
    → p.send (start_command s s.nonce_caller enc symmetric) t
      ≡ (t', ok (start_answer tag size h nonce))
    → tag < 2 ^ 16
    → size < 2 ^ 32
    → h < 2 ^ 32
    → All IsByte nonce
    → length nonce ≤ max_list_length
    → start_auth_session p s enc t ≡ (t', ok (h, nonce))
unfolding start_auth_session cmd_auths settle put_be
start_auth_session-answered p s enc symmetric nonce tag size h t t' caller salted chosen sent short₁
      short₂ short₃ new few =
    rw
      (execute-answered (password_sessions _) p.send start_auth_session_command
        (start_arguments s enc) (handle_slots h) (nonce_slots nonce) tag size
        (put_be 2 tag ++ (put_be 4 size ++ put_be 4 0)) (put_be 4 h) (sized_bytes nonce) []
        (start_command s s.nonce_caller enc symmetric) [] t t t' refl refl
        (request-start s enc symmetric t caller salted chosen)
        (rw (append-nil (sized_bytes nonce)) sent) short₁ short₂ (marshal-rsp_header tag size 0)
        ((refl, short₃), tt) ((refl, refl, nonce-Valid nonce new few), tt) (marshal_slots-handle h)
        (marshal_slots-nonce nonce new) (omega (arith, length-sized_bytes nonce))
        (omega (arith, few, length-sized_bytes nonce)))
      refl
