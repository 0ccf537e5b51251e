-- ===== src/Tpm2/Execute/Answers.antt =====
-- tpm2/reflect.go: what execute makes of the transport's answer.
use go_tpm.Base.{
  ℕ, ◌+◌, ◌%◌, ◌^◌, ◌-◌, ◌<◌, ◌≤◌, ◌≡◌, ◌≢◌, refl, ap, ◌∙◌, arith, Bool, true, false, List, [], ◌∷◌,
  ◌++◌, none, some, ◌==◌, leb, length, take, All, ltb-false, if◌then◌else◌, take-length,
  drop-length,
}
use go_tpm.Base.Bytes.{get_be}
use go_tpm.Base.Outcome.{ok, panic}
use go_tpm.Tpm2.Fault.{Res}
use go_tpm.Tpm2.Reflect.Marshal.{marshal}
use go_tpm.Tpm2.Structures.Auth.{tpm_rsp_header}
use go_tpm.Tpm2.Command.{Command}
use go_tpm.Tpm2.Command.Arguments.{Argument, cmd_auths}
use go_tpm.Tpm2.Execute.{rsp_header, rsp_parameters_area, take_area}
use go_tpm.Tpm2.Execute.Framing.{rsp_header-marshal}
use go_tpm.Tpm2.Execute.Step.{Step, lift, continue}
use go_tpm.Tpm2.Execute.Sessions.{Sessions}
use go_tpm.Tpm2.Execute.Response.{Slot, zero_response, decrypt_first, rsp_parameters}
use go_tpm.Tpm2.Execute.Response.RoundTrip.{
  IsHandle, IsParameter, marshal_slots, settle_slots, fields_of, rsp_handles-marshal,
  fill_from-marshal,
}
use go_tpm.Tpm2.Execute.Run.{request, read_response, on_header, execute_with, execute}

abbrev pub written_as : List ℕ → Res (List ℕ)
written_as = ok

-- The header of a response with this code is read as success, or as that code.
header_read :
    (tag n code : ℕ) (hdr rest : List ℕ)
    → tag < 2 ^ 16
    → n < 2 ^ 32
    → code < 2 ^ 32
    → marshal tpm_rsp_header (tag, (n, (code, tt))) ≡ written_as hdr
    → rsp_header (hdr ++ rest) ≡ ok (if code == 0 then none else some code, rest)
header_read tag n code hdr rest h k l e =
    let (b, w, r) = rsp_header-marshal tag n code rest h k l in let same : hdr ≡ b = cc in rw same r

module _ {W : Type 0} (ops : Sessions W) where
  open ops use {Session}

  abbrev pub NoEncryption : W → List Session → Type 0
  NoEncryption w = All (λ s. ops.is_encryption w s ≡ false)

  decrypt_first-none :
      (n : ℕ) (ss : List Session) (parms : List ℕ) (w : W)
      → NoEncryption w ss
      → decrypt_first ops n ss parms w ≡ (w, ok parms)
  unfolding decrypt_first
  decrypt_first-none n [] parms w h = refl
  decrypt_first-none n (s ∷ ss) parms w (h, hs) = rw (h, decrypt_first-none n ss parms w hs)

  -- Which of two ways is taken does not matter where both end alike.
  either_way :
      {A B : Type 0} (c : Bool) (x y : Step W A) (next : A → Step W B) (w w' : W) (a : A)
      → x w ≡ (w', ok a)
      → y w ≡ (w', ok a)
      → continue ((if c then x else y) w) next ≡ next a w'
  either_way true x y next w w' a h k = rw h
  either_way false x y next w w' a h k = rw k

  -- Behind the handles, a parameters area of at least two bytes fills the parameters, and bytes
  -- behind them are dropped.
  rsp_parameters-marshal :
      (sess : List Session) (hs ps : List Slot) (b extra : List ℕ) (w : W)
      → NoEncryption w sess
      → All IsHandle hs
      → All IsParameter ps
      → marshal_slots ps ≡ ok b
      → 2 ≤ length (b ++ extra)
      → rsp_parameters ops (b ++ extra) sess (settle_slots hs ++ zero_response (fields_of ps)) w
        ≡ (w, ok (settle_slots hs ++ settle_slots ps))
  unfolding rsp_parameters
  rsp_parameters-marshal sess hs ps b extra w none_encrypts h k e long =
      let n = get_be (take 2 (b ++ extra)) in
      rw (ltb-false (length (b ++ extra)) 2 long) (
        either_way (leb (n + 2) (length (b ++ extra))) (decrypt_first ops n sess (b ++ extra))
          (lift (ok (b ++ extra))) _ w w (b ++ extra)
          (decrypt_first-none n sess (b ++ extra) w none_encrypts) refl
        ∙ ap (λ r. (w, r)) (fill_from-marshal hs ps b extra h k e))

  take_area-all : (b : List ℕ) → length b < 2 ^ 31 → rsp_parameters_area false b ≡ ok (b, [])
  unfolding rsp_parameters_area take_area
  take_area-all b short =
      let whole : length b % 2 ^ 32 ≡ length b = omega arith in
      rw (
        whole,
        ltb-false (length b) (length b) (omega arith),
        ltb-false (2 ^ 31 - 1) (length b) (omega arith),
        take-length b,
        drop-length b,
      )

  read_response-marshal :
      (code : ℕ) (names : List (List ℕ)) (hs ps : List Slot) (bh bp extra : List ℕ) (w : W)
      → All IsHandle hs
      → All IsParameter ps
      → marshal_slots hs ≡ ok bh
      → marshal_slots ps ≡ ok bp
      → 2 ≤ length (bp ++ extra)
      → length (bp ++ extra) < 2 ^ 31
      → read_response ops code names [] (fields_of hs ++ fields_of ps) (bh ++ (bp ++ extra)) w
        ≡ (w, ok (settle_slots hs ++ settle_slots ps))
  unfolding read_response
  read_response-marshal code names hs ps bh bp extra w h k e₁ e₂ long short = rw (
    rsp_handles-marshal hs ps bh (bp ++ extra) h k e₁,
    take_area-all (bp ++ extra) short,
    rsp_parameters-marshal [] hs ps bp extra w tt h k e₂ long,
  )

  -- A command without sessions whose answer is a header with the response code 0, the marshalled
  -- handles and the marshalled parameters of its response returns their values as they survive the
  -- wire, provided the parameters area has at least two bytes and fewer than 2 ^ 31; bytes behind
  -- the last parameter are dropped.
  pub execute-answered :
      (send : List ℕ → Step W (List ℕ)) (cmd : Command) (args : List (Argument Session))
      (hs ps : List Slot) (tag n : ℕ) (hdr bh bp extra command : List ℕ) (names : List (List ℕ))
      (w w₁ w₂ : W)
      → cmd.response ≡ fields_of hs ++ fields_of ps
      → cmd_auths ops.password_auth args ≡ ok []
      → request ops cmd.code args [] w ≡ (w₁, ok (command, names))
      → send command w₁ ≡ (w₂, ok (hdr ++ (bh ++ (bp ++ extra))))
      → tag < 2 ^ 16
      → n < 2 ^ 32
      → marshal tpm_rsp_header (tag, (n, (0, tt))) ≡ ok hdr
      → All IsHandle hs
      → All IsParameter ps
      → marshal_slots hs ≡ ok bh
      → marshal_slots ps ≡ ok bp
      → 2 ≤ length (bp ++ extra)
      → length (bp ++ extra) < 2 ^ 31
      → execute ops send cmd args [] w ≡ (w₂, ok (settle_slots hs ++ settle_slots ps))
  unfolding execute execute_with on_header
  execute-answered send cmd args hs ps tag n hdr bh bp extra command names w w₁ w₂ fields no_auths
        requested answered short₁ short₂ header h k e₁ e₂ long short =
      rw
        (
          no_auths,
          requested,
          answered,
          header_read tag n 0 hdr (bh ++ (bp ++ extra)) short₁ short₂ (omega arith) header,
          fields,
        )
        (read_response-marshal cmd.code names hs ps bh bp extra w₂ h k e₁ e₂ long short)

  -- No session's cleanup panics, in any state.
  abbrev pub NoPanic : Type 0
  NoPanic = (s : Session) (w : W) → (ops.cleanup_failure s w).1 ≢ panic

  -- The state after the cleanups of the sessions, one after the other.
  abbrev pub after_cleanups : List Session → W → W
  after_cleanups [] w = w
  after_cleanups (s ∷ ss) w = after_cleanups ss ((ops.cleanup_failure s w).0)
