-- ===== src/Tpm2/Execute/Layout.antt =====
-- tpm2/reflect.go: the layout of the command that execute sends.
use mathlib.Core.Path.{subst}
use go_tpm.Base.{
  ℕ, ◌+◌, ◌%◌, ◌^◌, ◌<◌, ◌≡◌, refl, ap, ◌∙◌, sym, arith, Bool, true, false, ◌&&◌, List, [], ◌∷◌,
  ◌++◌, Option, none, some, ◌==◌, if◌then◌else◌, length, length-append,
}
use go_tpm.Base.Bytes.{put_be, length-put_be}
use go_tpm.Base.Outcome.{ok, ◌>>=◌}
use go_tpm.Tpm2.Fault.{Res}
use go_tpm.Tpm2.Reflect.Marshal.{marshal, marshal_field, nullable_form, add_sizes}
use go_tpm.Tpm2.Reflect.Selectors.{alg_null, rh_null}
use go_tpm.Tpm2.Reflect.Types.{Width, w8, w16, w32, w64, num, plain, size_of}
use go_tpm.Tpm2.Reflect.Unmarshal.{unmarshal}
use go_tpm.Tpm2.Structures.Auth.{tpm_cmd_header}
use go_tpm.Tpm2.Command.Arguments.{
  Argument, handle_arg, number_arg, parm_arg, sensitive_arg, cmd_handles, cmd_names,
}
use go_tpm.Tpm2.Command.Handles.{handle_value}
use go_tpm.Tpm2.Execute.{cmd_header, st_sessions, st_no_sessions}
use go_tpm.Tpm2.Execute.Framing.{unmarshal-cmd_header}
use go_tpm.Tpm2.Execute.Steps.{continue-eq-ok, continue-lift, value_eq}
use go_tpm.Tpm2.Execute.Sessions.{Sessions}
use go_tpm.Tpm2.Command.Order.{handles_first, marks, parms_of, names_of, cmd_names-names_of}
use go_tpm.Tpm2.Execute.Request.{cmd_parameters, cmd_sessions, session_area}
use go_tpm.Tpm2.Execute.Request.Areas.{AreParameters, cmd_parameters-AreParameters}
use go_tpm.Tpm2.Execute.Request.Authorizations.{IsSessionArea, session_area-IsSessionArea}
use go_tpm.Tpm2.Execute.Run.{init_all, authorization_area, request, has_any, lay_out}

-- What a number's field writes, by its null form.
abbrev formed : Option (List ℕ) → List ℕ → Res (List ℕ)
formed form out = do
  res ← elim form [ some b ↦ ok b | none ↦ ok out ]
  ok (add_sizes plain ([] ++ res))

pub formed-not_nullable :
    (b : Bool) (form out : List ℕ) → formed (if b && false then some form else none) out ≡ ok out
formed-not_nullable true form out = refl
formed-not_nullable false form out = refl

pub marshal_field-num :
    (w : Width) (n : ℕ)
    → marshal_field plain (num w) n (marshal (num w) n) ≡ ok (put_be (size_of w) n)
unfolding marshal nullable_form
marshal_field-num w8 n = refl
marshal_field-num w16 n = formed-not_nullable (n == 0) (put_be 2 alg_null) (put_be 2 n)
marshal_field-num w32 n = formed-not_nullable (n == 0) (put_be 4 rh_null) (put_be 4 n)
marshal_field-num w64 n = refl

pub marshal-cmd_header :
    (tag n code : ℕ)
    → marshal tpm_cmd_header (tag, (n, (code, tt)))
      ≡ ok (put_be 2 tag ++ (put_be 4 n ++ (put_be 4 code ++ [])))
unfolding marshal
marshal-cmd_header tag n code =
    rw (marshal_field-num w16 tag, marshal_field-num w32 n, marshal_field-num w32 code)

abbrev the_ok : List ℕ → Res (List ℕ)
the_ok = ok

abbrev pub tag_of : Bool → ℕ
tag_of has_sessions = if has_sessions then st_sessions else st_no_sessions

-- A command's header has ten bytes.
length-cmd_header :
    (has_sessions : Bool) (n code : ℕ) (hdr : List ℕ)
    → cmd_header has_sessions n code ≡ ok hdr
    → length hdr ≡ 10
unfolding cmd_header
length-cmd_header has_sessions n code hdr h =
    let tag = tag_of has_sessions in
    let e : the_ok hdr ≡ ok (put_be 2 tag ++ (put_be 4 (n % 2 ^ 32) ++ (put_be 4 code ++ []))) =
      sym h ∙ marshal-cmd_header tag (n % 2 ^ 32) code in
    let e' : hdr ≡ put_be 2 tag ++ (put_be 4 (n % 2 ^ 32) ++ (put_be 4 code ++ [])) = cc in
    rw (e') (
      omega (
        arith,
        length-append (put_be 2 tag) (put_be 4 (n % 2 ^ 32) ++ (put_be 4 code ++ [])),
        length-append (put_be 4 (n % 2 ^ 32)) (put_be 4 code ++ []),
        length-append (put_be 4 code) [],
        length-put_be 2 tag,
        length-put_be 4 (n % 2 ^ 32),
        length-put_be 4 code,
      ))

-- A command is read back as its header, whose length is the command's, and the rest.
abbrev pub Parses : Bool → ℕ → List ℕ → List ℕ → Type 0
Parses has_sessions code rest command =
    unmarshal tpm_cmd_header command
    ≡ ok ((tag_of has_sessions, (length command % 2 ^ 32, (code, tt))), rest)

lay_out-Parses :
    (has_sessions : Bool) (n code : ℕ) (hdr handles area parms : List ℕ)
    → code < 2 ^ 32
    → n ≡ 10 + length handles + length area + length parms
    → cmd_header has_sessions n code ≡ ok hdr
    → Parses has_sessions code (handles ++ (area ++ parms)) (lay_out hdr handles area parms)
lay_out-Parses has_sessions n code hdr handles area parms short e h =
    let rest = handles ++ (area ++ parms) in
    let (b, w, r) = unmarshal-cmd_header has_sessions n code rest short in
    let same : hdr ≡ b = cc in
    let whole : length (hdr ++ rest) ≡ n = omega (
      arith,
      e,
      length-append hdr rest,
      length-append handles (area ++ parms),
      length-append area parms,
      length-cmd_header has_sessions n code hdr h,
    ) in
    subst
      (λ m.
        unmarshal tpm_cmd_header (hdr ++ rest)
        ≡ ok ((tag_of has_sessions, (m % 2 ^ 32, (code, tt))), rest))
      (sym whole) (ap (λ c. unmarshal tpm_cmd_header (c ++ rest)) same ∙ r)

-- The handles in their order, each in four bytes.
abbrev pub handle_bytes : {S : Type 0} → List (Argument S) → List ℕ
handle_bytes [] = []
handle_bytes (handle_arg x auth anon h ∷ args) = put_be 4 (handle_value h) ++ handle_bytes args
handle_bytes (number_arg x h ∷ args) = put_be 4 h ++ handle_bytes args
handle_bytes (parm_arg x tags t v ∷ args) = handle_bytes args
handle_bytes (sensitive_arg x v ∷ args) = handle_bytes args

cmd_handles-handle_bytes :
    {S : Type 0} (args : List (Argument S)) → cmd_handles args ≡ handle_bytes args
unfolding cmd_handles
cmd_handles-handle_bytes [] = refl
cmd_handles-handle_bytes (handle_arg x auth anon h ∷ args) = rw (cmd_handles-handle_bytes args)
cmd_handles-handle_bytes (number_arg x h ∷ args) = rw (cmd_handles-handle_bytes args)
cmd_handles-handle_bytes (parm_arg x tags t v ∷ args) = cmd_handles-handle_bytes args
cmd_handles-handle_bytes (sensitive_arg x v ∷ args) = cmd_handles-handle_bytes args

module _ {W : Type 0} (ops : Sessions W) where
  open ops use {Session}

  -- What stands between the handles and the parameters: without sessions nothing, and with sessions
  -- their area, which is made with the names of the handles that are not anonymous.
  abbrev pub IsArea :
      (cc : ℕ) (args : List (Argument Session)) (parms : List ℕ)
      → List Session
      → (w : W) (names : List (List ℕ)) (area : List ℕ) (w' : W) → Type 0
  IsArea cc args parms [] w names area w' = (names ≡ []) × (area ≡ []) × (w ≡ w')
  IsArea cc args parms (s ∷ others) w names area w' =
      (names_of args ≡ ok names) × IsSessionArea ops cc parms names s others w area w'

  authorization_area-IsArea :
      (code : ℕ) (args : List (Argument Session)) (parms : List ℕ) (sess : List Session) (w w' : W)
      (names : List (List ℕ)) (area : List ℕ)
      → handles_first (marks args) ≡ true
      → authorization_area ops code args parms sess w ≡ (w', ok (names, area))
      → IsArea code args parms sess w names area w'
  unfolding authorization_area cmd_sessions
  authorization_area-IsArea code args parms [] w w' names area first h =
      let e = value_eq w w' ([], []) (names, area) h in
      (sym (ap (λ p. p.0) e), sym (ap (λ p. p.1) e), ap (λ p. p.0) h)
  authorization_area-IsArea code args parms (s ∷ ss) w w' names area first h =
      let (ns, e, f) = continue-lift w (cmd_names args) _ h in
      let (w₁, a, g, k) = continue-eq-ok (session_area ops code ns parms (s ∷ ss) ss w) _ f in
      let e' = value_eq w₁ w' (ns, a) (names, area) k in
      let same_names : ns ≡ names = ap (λ p. p.0) e' in
      let same_area : a ≡ area = ap (λ p. p.1) e' in
      let same : w₁ ≡ w' = ap (λ p. p.0) k in
      (
        sym (cmd_names-names_of args first) ∙ e ∙ ap ok same_names,
        session_area-IsSessionArea ops code names parms s ss w w' area (
            ap (λ n. session_area ops code n parms (s ∷ ss) ss w) (sym same_names)
            ∙ g
            ∙ ap (λ v. (v, ok a)) same
            ∙ ap (λ b. (w', ok b)) same_area),
      )

  -- A command whose handles come first, and that is sent, begins with a header that carries the
  -- command's own length and its code, and says whether there are sessions. Behind it stand the
  -- handles; with sessions the size of their area and, in their order, what each of them authorizes
  -- this command's names and parameters with, the first with the nonces of the others that decrypt
  -- and that encrypt; and then all the parameters in their order, of which the first one's contents
  -- are encrypted by the first session that decrypts, if there is one.
  pub request-layout :
      (code : ℕ) (args : List (Argument Session)) (sess : List Session) (w w' : W)
      (command : List ℕ) (names : List (List ℕ))
      → code < 2 ^ 32
      → handles_first (marks args) ≡ true
      → request ops code args sess w ≡ (w', ok (command, names))
      → (w₁ : W) × (w₂ : W) × (parms : List ℕ) × (area : List ℕ) × (init_all ops sess w
          ≡ (w₁, ok tt))
        × AreParameters ops (parms_of args) sess w₁ parms w₂
        × IsArea code args parms sess w₂ names area w'
        × Parses (has_any sess) code (handle_bytes args ++ (area ++ parms)) command
  unfolding request
  request-layout code args sess w w' command names short first h =
      let (w₁, ready, e₁, f₁) = continue-eq-ok (init_all ops sess w) _ h in
      let (w₂, parms, e₂, f₂) = continue-eq-ok (cmd_parameters ops args sess w₁) _ f₁ in
      let (w₃, (ns, area), e₃, f₃) =
        continue-eq-ok (authorization_area ops code args parms sess w₂) _ f₂ in
      let n = 10 + length (cmd_handles args) + length area + length parms in
      let (hdr, e₄, f₄) = continue-lift w₃ (cmd_header (has_any sess) n code) _ f₃ in
      let laid =
        lay_out-Parses (has_any sess) n code hdr (cmd_handles args) area parms short refl e₄ in
      let e₅ = value_eq w₃ w' (lay_out hdr (cmd_handles args) area parms, ns) (command, names) f₄ in
      let same : w₃ ≡ w' = ap (λ p. p.0) f₄ in
      (
        w₁,
        w₂,
        parms,
        area,
        e₁,
        cmd_parameters-AreParameters ops args sess w₁ w₂ parms first e₂,
        authorization_area-IsArea code args parms sess w₂ w' names area first (
            e₃
            ∙ ap (λ v. (v, ok (ns, area))) same
            ∙ ap (λ m. (w', ok (m, area))) (ap (λ p. p.1) e₅)),
        subst (λ handles. Parses (has_any sess) code (handles ++ (area ++ parms)) command)
            (cmd_handles-handle_bytes args)
            (subst (Parses (has_any sess) code (cmd_handles args ++ (area ++ parms)))
              (ap (λ p. p.0) e₅) laid),
      )
