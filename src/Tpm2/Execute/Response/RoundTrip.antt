-- ===== src/Tpm2/Execute/Response/RoundTrip.antt =====
-- rspHandles, rspParametersArea and rspParameters of tpm2/reflect.go read a response as it is laid
-- out: the handles, then the parameters.
use go_tpm.Base.{
  ℕ, ◌≡◌, refl, true, false, List, [], ◌∷◌, ◌++◌, length, All, append_assoc, take-append,
  drop-append,
}
use go_tpm.Base.Outcome.{ok, ◌>>=◌, >>=-eq-ok}
use go_tpm.Tpm2.Fault.{Res}
use go_tpm.Tpm2.Reflect.Types.{El}
use go_tpm.Tpm2.Reflect.Marshal.{marshal}
use go_tpm.Tpm2.Reflect.Valid.{Valid, settle}
use go_tpm.Tpm2.Reflect.RoundTrip.{unmarshal-marshal}
use go_tpm.Tpm2.Command.{ResponseField, is_handle_out}
use go_tpm.Tpm2.Execute.Response.{
  Slot, type_of, zero_response, handle_count, fill, rsp_handles, is_optional, fill_parameter,
  fill_parameters, fill_from,
}

abbrev pub marshal_slots : List Slot → Res (List ℕ)
marshal_slots [] = ok []
marshal_slots ((f, v) ∷ slots) = do
  b ← marshal (type_of f) v
  bs ← marshal_slots slots
  ok (b ++ bs)

abbrev pub settle_slots : List Slot → List Slot
settle_slots [] = []
settle_slots ((f, v) ∷ slots) = (f, settle (type_of f) v) ∷ settle_slots slots

abbrev pub fields_of : List Slot → List ResponseField
fields_of [] = []
fields_of ((f, v) ∷ slots) = f ∷ fields_of slots

-- A handle, or a parameter that is no optional pointer, with a value that survives the wire.
abbrev pub IsHandle : Slot → Type 0
IsHandle (f, v) = (is_handle_out f ≡ true) × Valid (type_of f) v

abbrev pub IsParameter : Slot → Type 0
IsParameter (f, v) = (is_handle_out f ≡ false) × (is_optional f ≡ false) × Valid (type_of f) v

-- What a written value reads back as.
fill-marshal :
    (f : ResponseField) (v : El (type_of f)) (b rest : List ℕ)
    → Valid (type_of f) v
    → marshal (type_of f) v ≡ ok b
    → fill f (b ++ rest) ≡ ok ((f, settle (type_of f) v), rest)
unfolding fill
fill-marshal f v b rest ok_v h =
    let (c, w, r) = unmarshal-marshal (type_of f) v rest ok_v in
    let same : b ≡ c = cc in rw (same, r)

rsp_handles-parameters :
    (ps : List Slot) (b : List ℕ)
    → All IsParameter ps
    → rsp_handles (zero_response (fields_of ps)) b ≡ ok (zero_response (fields_of ps), b)
unfolding rsp_handles
rsp_handles-parameters [] b h = refl
rsp_handles-parameters ((f, v) ∷ ps) b ((k, o, valid), hs) = rw (k, rsp_handles-parameters ps b hs)

pub rsp_handles-marshal :
    (hs ps : List Slot) (b rest : List ℕ)
    → All IsHandle hs
    → All IsParameter ps
    → marshal_slots hs ≡ ok b
    → rsp_handles (zero_response (fields_of hs ++ fields_of ps)) (b ++ rest)
      ≡ ok (settle_slots hs ++ zero_response (fields_of ps), rest)
unfolding rsp_handles
rsp_handles-marshal [] ps b rest h k e =
    let nothing : b ≡ [] = cc in rw (nothing, rsp_handles-parameters ps rest k)
rsp_handles-marshal ((f, v) ∷ hs) ps b rest ((m, valid), h) k e =
    let (c, w, e₁) = >>=-eq-ok (marshal (type_of f) v) _ e in
    let (cs, w₁, e₂) = >>=-eq-ok (marshal_slots hs) _ e₁ in
    let whole : b ≡ c ++ cs = cc in
    rw (
      whole,
      append_assoc c cs rest,
      m,
      fill-marshal f v c (cs ++ rest) valid w,
      rsp_handles-marshal hs ps cs rest h k w₁,
    )

fill_parameters-marshal :
    (ps : List Slot) (b rest : List ℕ)
    → All IsParameter ps
    → marshal_slots ps ≡ ok b
    → fill_parameters (zero_response (fields_of ps)) (b ++ rest) ≡ ok (settle_slots ps, rest)
unfolding fill_parameters fill_parameter
fill_parameters-marshal [] b rest k e = let nothing : b ≡ [] = cc in rw nothing
fill_parameters-marshal ((f, v) ∷ ps) b rest ((m, o, valid), k) e =
    let (c, w, e₁) = >>=-eq-ok (marshal (type_of f) v) _ e in
    let (cs, w₁, e₂) = >>=-eq-ok (marshal_slots ps) _ e₁ in
    let whole : b ≡ c ++ cs = cc in
    rw (
      whole,
      append_assoc c cs rest,
      o,
      fill-marshal f v c (cs ++ rest) valid w,
      fill_parameters-marshal ps cs rest k w₁,
    )

handle_count-parameters :
    (ps : List Slot) → All IsParameter ps → handle_count (zero_response (fields_of ps)) ≡ 0
handle_count-parameters [] k = refl
handle_count-parameters ((f, v) ∷ ps) ((m, o, valid), k) = rw (m, handle_count-parameters ps k)

handle_count-handles :
    (hs ps : List Slot)
    → All IsHandle hs
    → All IsParameter ps
    → handle_count (settle_slots hs ++ zero_response (fields_of ps)) ≡ length (settle_slots hs)
handle_count-handles [] ps h k = handle_count-parameters ps k
handle_count-handles ((f, v) ∷ hs) ps ((m, valid), h) k = rw (m, handle_count-handles hs ps h k)

-- Behind the handles that are already filled, the parameters are filled, and bytes behind them are
-- dropped.
pub fill_from-marshal :
    (hs ps : List Slot) (b extra : List ℕ)
    → All IsHandle hs
    → All IsParameter ps
    → marshal_slots ps ≡ ok b
    → fill_from
        (handle_count (settle_slots hs ++ zero_response (fields_of ps)))
        (settle_slots hs ++ zero_response (fields_of ps))
        (b ++ extra)
      ≡ ok (settle_slots hs ++ settle_slots ps)
unfolding fill_from
fill_from-marshal hs ps b extra h k e = rw (
  handle_count-handles hs ps h k,
  drop-append (settle_slots hs) (zero_response (fields_of ps)),
  fill_parameters-marshal ps b extra k e,
  take-append (settle_slots hs) (zero_response (fields_of ps)),
)
