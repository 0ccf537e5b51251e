-- ===== src/Legacy/Selection.antt =====
-- The selections of PCRs in legacy/tpm2: encodeTPMLPCRSelection and its counterparts. A PCR is a Go
-- int; negative ones, for which the code panics, are no numbers of the model.
pub mod Marked
pub mod RoundTrip
use go_tpm.Base.{
  ℕ, zero, suc, ◌+◌, ◌*◌, ◌/◌, ◌%◌, ◌^◌, List, [], ◌∷◌, ◌++◌, Option, none, some, bit_and, bit_or,
  ltb, leb, ◌==◌, if◌then◌else◌, length, replicate, get_or, set,
}
use go_tpm.Base.Outcome.{ok, err, ◌>>=◌}
use go_tpm.Tpm2.Reflect.Types.{w8, w16, w32}
use go_tpm.Tpmutil.Encoding.{value, no_values, num, raw_bytes, struct}
use go_tpm.Legacy.Wire.{Res, pack, unpack_num, read_into, pcr_out_of_range, not_one_selection}
use go_tpm.Legacy.Algorithm.{alg_unknown}

pub record Selection : Type 0 where
  pub hash : ℕ
  pub pcrs : List ℕ

abbrev pub size_of_pcr_select : ℕ
size_of_pcr_select = 3

-- The loop over the PCRs of a selection.
unfoldable pub mark_pcrs : List ℕ → List ℕ → Res (List ℕ)
mark_pcrs [] mask = ok mask
mark_pcrs (n ∷ ns) mask =
    let rest = mark_pcrs ns (set mask (n / 8) (bit_or (get_or mask (n / 8) 0) (2 ^ (n % 8)))) in
    if leb (8 * size_of_pcr_select) n then err pcr_out_of_range else rest

unfoldable pub encode_selection : Selection → Res (List ℕ)
unfolding mark_pcrs
encode_selection s = do
  mask ← mark_pcrs s.pcrs (replicate size_of_pcr_select 0)
  pack (
      value
        (struct (
          value (num w16 s.hash)
            (value (num w8 size_of_pcr_select) (value (raw_bytes mask) no_values))))
        no_values)

-- The loop over the selections, which returns early at a selection of no PCRs: then there are no
-- bytes.
abbrev pub after_selection : Option (List ℕ) → List ℕ → Option (List ℕ)
after_selection none b = none
after_selection (some rest) b = some (b ++ rest)

abbrev pub is_empty : List ℕ → go_tpm.Base.Bool
is_empty ns = length ns == 0

unfoldable pub encode_each : List Selection → Res (Option (List ℕ))
unfolding encode_selection
encode_each [] = ok (some [])
encode_each (s ∷ ss) =
    let rest = encode_each ss in
    if is_empty s.pcrs
    then ok none
    else (do b ← encode_selection s; r ← rest; ok (after_selection r b))

abbrev pub with_count : ℕ → Option (List ℕ) → Res (List ℕ)
with_count n none = pack (value (num w32 0) no_values)
with_count n (some b) = do size ← pack (value (num w32 n) no_values); ok (size ++ b)

-- `encodeTPMLPCRSelection`
unfoldable pub encode_selections : List Selection → Res (List ℕ)
unfolding encode_each
encode_selections [] = pack (value (num w32 0) no_values)
encode_selections (s ∷ ss) = do b ← encode_each (s ∷ ss); with_count (length (s ∷ ss)) b

-- The loops over the bits of a mask: `left` bits from `k` on of byte `j`.
unfoldable pub set_bits : (left k j byte : ℕ) → List ℕ
set_bits zero k j byte = []
set_bits (suc left) k j byte =
    let rest = set_bits left (suc k) j byte in
    if bit_and byte (2 ^ k) == 0 then rest else (8 * j + k) ∷ rest

unfoldable pub set_pcrs : ℕ → List ℕ → List ℕ
unfolding set_bits
set_pcrs j [] = []
set_pcrs j (byte ∷ mask) = set_bits 8 0 j byte ++ set_pcrs (suc j) mask

unfoldable pub decode_selection : List ℕ → Res (Selection × List ℕ)
unfolding set_pcrs
decode_selection b = do
  (hash, b₁) ← unpack_num w16 b
  (size, b₂) ← unpack_num w8 b₁
  (mask, b₃) ← read_into size b₂
  ok (record { hash = hash; pcrs = set_pcrs 0 mask }, b₃)

unfoldable pub decode_each : ℕ → List ℕ → Res (List Selection × List ℕ)
unfolding decode_selection
decode_each zero b = ok ([], b)
decode_each (suc n) b = do
  (s, b₁) ← decode_selection b
  (ss, b₂) ← decode_each n b₁
  ok (s ∷ ss, b₂)

-- A list of no selections is read as one that selects nothing.
abbrev pub at_least_one : List Selection → List Selection
at_least_one [] = record { hash = alg_unknown; pcrs = [] } ∷ []
at_least_one (s ∷ ss) = s ∷ ss

-- `decodeTPMLPCRSelection` and `decodeOneTPMLPCRSelection`
unfoldable pub decode_selections : List ℕ → Res (List Selection × List ℕ)
unfolding decode_each
decode_selections b = do
  (n, b₁) ← unpack_num w32 b
  (ss, b₂) ← decode_each n b₁
  ok (at_least_one ss, b₂)

abbrev pub only : List Selection → List ℕ → Res (Selection × List ℕ)
only (s ∷ []) b = ok (s, b)
only _ b = err not_one_selection

unfoldable pub decode_one_selection : List ℕ → Res (Selection × List ℕ)
unfolding decode_selections
decode_one_selection b = do (ss, b₁) ← decode_selections b; only ss b₁
