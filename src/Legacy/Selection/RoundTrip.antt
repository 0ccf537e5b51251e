-- ===== src/Legacy/Selection/RoundTrip.antt =====
-- Selections of PCRs are read back, but for their order, and what an empty one does.
use go_tpm.Base.{
  ℕ, ◌^◌, ◌<◌, ◌≡◌, refl, ap, ◌∙◌, sym, arith, true, false, ◌||◌, List, [], ◌∷◌, ◌++◌, append_assoc,
  append-nil, none, some, length, replicate, All,
}
use go_tpm.Base.Bytes.{put_be}
use go_tpm.Base.Outcome.{ok}
use go_tpm.Tpm2.Reflect.Types.{w8, w16, w32}
use go_tpm.Tpm2.Pcrs.Selected.{contains, is_selected-replicate, or_false}
use go_tpm.Tpmutil.Encoding.{pack_values, pack_value}
use go_tpm.Legacy.Wire.{pack, read_into}
use go_tpm.Legacy.Wire.Back.{unpack_num-put_be, read_into-front}
use go_tpm.Legacy.Selection.{
  Selection, encode_selection, encode_each, encode_selections, set_pcrs, decode_selection,
  decode_each, decode_selections, is_empty, at_least_one,
}
use go_tpm.Legacy.Selection.Marked.{mark_pcrs-selected, set_pcrs-selected}

-- Some PCRs, which a mask of 24 bits holds.
abbrev pub ValidSelection : Selection → Type 0
ValidSelection s = (s.hash < 2 ^ 16) × All (λ n. n < 24) s.pcrs × (is_empty s.pcrs ≡ false)

-- The same PCRs, in any order.
abbrev pub SameSelection : Selection → Selection → Type 0
SameSelection s s' = (s'.hash ≡ s.hash) × ((n : ℕ) → contains s'.pcrs n ≡ contains s.pcrs n)

abbrev pub SameSelections : List Selection → List Selection → Type 0
SameSelections [] [] = Unit {0}
SameSelections [] (s' ∷ ss') = ⊥
SameSelections (s ∷ ss) [] = ⊥
SameSelections (s ∷ ss) (s' ∷ ss') = SameSelection s s' × SameSelections ss ss'

selection_back :
    (s : Selection)
    → ValidSelection s
    → (s' : Selection) × SameSelection s s'
      × (b : List ℕ) × (encode_selection s ≡ ok b)
      × ((rest : List ℕ) → decode_selection (b ++ rest) ≡ ok (s', rest))
unfolding encode_selection decode_selection pack pack_values pack_value
selection_back s (hash, all, some_pcrs) =
    let (mask, e, size, f) = mark_pcrs-selected s.pcrs (replicate 3 0) all refl in
    (
      record { hash = s.hash; pcrs = set_pcrs 0 mask },
      (
        refl,
        λ n.
            set_pcrs-selected mask n
            ∙ f n
            ∙ ap (λ t. contains s.pcrs n || t) (is_selected-replicate 3 n)
            ∙ or_false (contains s.pcrs n),
      ),
      (put_be 2 s.hash ++ (put_be 1 3 ++ (mask ++ []))) ++ [],
      rw e,
      λ rest.
          let front : read_into 3 (mask ++ rest) ≡ ok (mask, rest) =
            ap (λ k. read_into k (mask ++ rest)) (sym size) ∙ read_into-front mask rest in
          simp (
            append_assoc,
            append-nil,
            unpack_num-put_be w16 s.hash _ hash,
            unpack_num-put_be w8 3 _ (omega arith),
            front,
          ),
    )

each_back :
    (ss : List Selection)
    → All ValidSelection ss
    → (ss' : List Selection) × SameSelections ss ss'
      × (b : List ℕ) × (encode_each ss ≡ ok (some b))
      × ((rest : List ℕ) → decode_each (length ss) (b ++ rest) ≡ ok (ss', rest))
unfolding encode_each decode_each
each_back [] all = ([], tt, [], refl, λ rest. refl)
each_back (s ∷ ss) (v, all) =
    let (s', same, b, e, r) = selection_back s v in
    let (ss', sames, bs, es, rs) = each_back ss all in
    (
      s' ∷ ss',
      (same, sames),
      b ++ bs,
      simp (v.2, e, es),
      λ rest. simp (append_assoc b bs rest, r (bs ++ rest), rs rest),
    )

kept :
    (s : Selection) (ss ss' : List Selection) → SameSelections (s ∷ ss) ss' → at_least_one ss' ≡ ss'
kept s ss [] same = absurd same
kept s ss (s' ∷ ss') same = refl

-- A list of at least one selection, each with some PCRs below 24, is encoded with no error, and
-- decoded, whatever follows, as selections with the same hash algorithms and the same PCRs.
pub decode_selections-encode_selections :
    (s : Selection) (ss : List Selection) (rest : List ℕ)
    → All ValidSelection (s ∷ ss)
    → length (s ∷ ss) < 2 ^ 32
    → (b : List ℕ) × (ss' : List Selection) × (encode_selections (s ∷ ss) ≡ ok b)
      × (decode_selections (b ++ rest) ≡ ok (ss', rest))
      × SameSelections (s ∷ ss) ss'
unfolding encode_selections decode_selections pack pack_values pack_value
decode_selections-encode_selections s ss rest all few =
    let (ss', same, b, e, r) = each_back (s ∷ ss) all in
    (
      (put_be 4 (length (s ∷ ss)) ++ []) ++ b,
      ss',
      simp e,
      simp (
        append_assoc,
        append-nil,
        unpack_num-put_be w32 (length (s ∷ ss)) _ few,
        r rest,
        kept s ss ss' same,
      ),
      same,
    )

each_empty :
    (ss rest : List Selection) (s : Selection)
    → All ValidSelection ss
    → is_empty s.pcrs ≡ true
    → encode_each (ss ++ s ∷ rest) ≡ ok none
unfolding encode_each
each_empty [] rest s all empty = rw empty
each_empty (s' ∷ ss) rest s (v, all) empty =
    let (t, same, b, e, r) = selection_back s' v in simp (v.2, e, each_empty ss rest s all empty)

-- A selection of no PCRs behind any valid selections makes the whole list be encoded as one of no
-- selections: the others are dropped with no error.
pub encode_selections-empty :
    (ss rest : List Selection) (s : Selection)
    → All ValidSelection ss
    → is_empty s.pcrs ≡ true
    → encode_selections (ss ++ s ∷ rest) ≡ encode_selections []
unfolding encode_selections
encode_selections-empty [] rest s all empty = rw (each_empty [] rest s all empty)
encode_selections-empty (s' ∷ ss) rest s all empty = rw (each_empty (s' ∷ ss) rest s all empty)
