-- ===== src/Tests/Bits.antt =====
-- tpm2/bitfield.go and tpm2/pcrs.go on concrete masks.
use go_tpm.Base.{ℕ, ◌≤◌, ◌≡◌, refl, List, [], ◌∷◌, length}
use go_tpm.Base.Outcome.{ok}
use go_tpm.Tpm2.Pcrs.{pcrs, mark, max_pcr}
use go_tpm.Tpm2.Pcrs.Selected.{is_selected, contains, pcrs-selected}

pcrs-debug : pcrs (16 ∷ 0 ∷ 7 ∷ []) ≡ ok (0x81 ∷ 0 ∷ 1 ∷ [])
unfolding pcrs mark max_pcr
pcrs-debug = refl

pcrs-selected_example :
    (s : List ℕ) × (pcrs (16 ∷ 0 ∷ 7 ∷ []) ≡ ok s)
    × (3 ≤ length s)
    × ((n : ℕ) → is_selected s n ≡ contains (16 ∷ 0 ∷ 7 ∷ []) n)
pcrs-selected_example = pcrs-selected (16 ∷ 0 ∷ 7 ∷ [])
