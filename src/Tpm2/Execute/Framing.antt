-- ===== src/Tpm2/Execute/Framing.antt =====
-- tpm2/reflect.go: headers and areas are read as they are laid out.
use go_tpm.Base.{
  ℕ, ◌-◌, ◌%◌, ◌^◌, ◌<◌, ◌≤◌, ◌≡◌, refl, ap, ◌∙◌, Bool, true, false, ◌&&◌, List, ◌++◌, none, some,
  ◌==◌, if◌then◌else◌, length, arith, length-append, take-append, drop-append, ltb-false, inl,
}
use go_tpm.Base.Bytes.{put_be}
use go_tpm.Base.Outcome.{ok, ◌>>=◌}
use go_tpm.Tpm2.Fault.{Res}
use go_tpm.Tpm2.Reflect.Types.{El}
use go_tpm.Tpm2.Reflect.Marshal.{marshal}
use go_tpm.Tpm2.Reflect.Unmarshal.{unmarshal}
use go_tpm.Tpm2.Reflect.Selectors.{alg_null, rh_null}
use go_tpm.Tpm2.Reflect.Valid.{Valid, settle}
use go_tpm.Tpm2.Reflect.RoundTrip.{unmarshal-marshal, read_num-put_be}
use go_tpm.Tpm2.Structures.Auth.{tpm_cmd_header, tpm_rsp_header}
use go_tpm.Tpm2.Execute.{
  after_header, st_sessions, st_no_sessions, cmd_header, rsp_header, take_area, rsp_parameters_area,
}

header-Valid :
    (tag n code : ℕ)
    → tag < 2 ^ 16
    → n < 2 ^ 32
    → code < 2 ^ 32
    → Valid tpm_rsp_header (tag, (n, (code, tt)))
header-Valid tag n code h k l = (
  ((refl, (refl, tt)), ((refl, tt), (tt, tt))),
  (
    refl,
    inl (refl, refl, omega arith),
    (refl, inl (refl, refl, omega arith), (refl, inl (refl, refl, omega arith), tt)),
  ),
)

not_nullable : (b : Bool) (x y : ℕ) → (if b && false then x else y) ≡ y
not_nullable true x y = refl
not_nullable false x y = refl

-- No number of a header is nullable.
settle-header :
    (tag n code : ℕ) → settle tpm_rsp_header (tag, (n, (code, tt))) ≡ (tag, (n, (code, tt)))
unfolding settle
settle-header tag n code = λ i. (
  not_nullable (tag == 0) alg_null tag i,
  (not_nullable (n == 0) rh_null n i, (not_nullable (code == 0) rh_null code i, tt)),
)

-- A response's header with the response code 0 is accepted, and one with any other code returns
-- that code as the error; what stands behind the header is left.
pub rsp_header-marshal :
    (tag n code : ℕ) (rest : List ℕ)
    → tag < 2 ^ 16
    → n < 2 ^ 32
    → code < 2 ^ 32
    → (b : List ℕ) × (marshal tpm_rsp_header (tag, (n, (code, tt))) ≡ ok b)
      × (rsp_header (b ++ rest) ≡ ok (if code == 0 then none else some code, rest))
unfolding rsp_header
rsp_header-marshal tag n code rest h k l =
    let (b, w, r) =
      unmarshal-marshal tpm_rsp_header (tag, (n, (code, tt))) rest
        (header-Valid tag n code h k l) in
    (
      b,
      w,
      ap (λ (m : Res (El tpm_rsp_header × List ℕ)). m >>= after_header)
          (r ∙ ap (λ v. ok (v, rest)) (settle-header tag n code)),
    )

-- A command's header says whether there are sessions, the command's length in 32 bits, and the
-- command code.
pub unmarshal-cmd_header :
    (has_sessions : Bool) (n code : ℕ) (rest : List ℕ)
    → code < 2 ^ 32
    → (b : List ℕ) × (cmd_header has_sessions n code ≡ ok b)
      × (unmarshal tpm_cmd_header (b ++ rest)
          ≡ ok (
            (if has_sessions then st_sessions else st_no_sessions, (n % 2 ^ 32, (code, tt))),
            rest,
          ))
unfolding cmd_header settle
unmarshal-cmd_header has_sessions n code rest l =
    let tag = if has_sessions then st_sessions else st_no_sessions in
    let short : tag < 2 ^ 16 = ground arith in
    let (b, w, r) =
      unmarshal-marshal tpm_cmd_header (tag, (n % 2 ^ 32, (code, tt))) rest
        (header-Valid tag (n % 2 ^ 32) code short (omega arith) l) in
    (b, w, r ∙ ap (λ v. ok (v, rest)) (settle-header tag (n % 2 ^ 32) code))

-- The parameters of a response with sessions are the bytes that the length in front of them
-- counts, and the sessions' area is left for the sessions.
pub rsp_parameters_area-sessions :
    (parms sessions : List ℕ)
    → length (parms ++ sessions) < 2 ^ 32
    → length parms < 2 ^ 31
    → rsp_parameters_area true (put_be 4 (length parms) ++ (parms ++ sessions))
      ≡ ok (parms, sessions)
unfolding rsp_parameters_area take_area
rsp_parameters_area-sessions parms sessions h k =
    let whole : length parms ≤ length (parms ++ sessions) % 2 ^ 32 =
      omega (arith, length-append parms sessions) in
    rw (
      read_num-put_be 4 (length parms) (parms ++ sessions) (omega arith),
      ltb-false (length (parms ++ sessions) % 2 ^ 32) (length parms) whole,
      ltb-false (2 ^ 31 - 1) (length parms) (omega arith),
      take-append parms sessions,
      drop-append parms sessions,
    )
