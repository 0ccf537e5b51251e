-- ===== src/Tpm2/Pcrs.antt =====
-- tpm2/pcrs.go: the selection mask of PCR indices. A PCR is a Go uint, and no number here leaves it.
use go_tpm.Base.{
  ℕ, ◌+◌, ◌/◌, ◌%◌, ◌^◌, List, [], ◌∷◌, bit_or, ltb, if◌then◌else◌, length, replicate, get_or, set,
}
use go_tpm.Base.Outcome.{ok, panic}
use go_tpm.Tpm2.Fault.{Res}
pub mod Selected

abbrev pub pc_client_minimum_pcr_count : ℕ
pc_client_minimum_pcr_count = 24

-- The first loop.
unfoldable pub max_pcr : ℕ → List ℕ → ℕ
max_pcr largest [] = largest
max_pcr largest (pcr ∷ pcrs) = max_pcr (if ltb largest pcr then pcr else largest) pcrs

abbrev pub selection_size : List ℕ → ℕ
selection_size pcrs =
    let size = max_pcr 0 pcrs / 8 + 1 in
    if ltb size (pc_client_minimum_pcr_count / 8) then pc_client_minimum_pcr_count / 8 else size

-- The second loop; an index out of range panics.
unfoldable pub mark : List ℕ → List ℕ → Res (List ℕ)
mark [] selection = ok selection
mark (pcr ∷ pcrs) selection =
    let rest =
      mark pcrs (set selection (pcr / 8) (bit_or (get_or selection (pcr / 8) 0) (2 ^ (pcr % 8)))) in
    if ltb (pcr / 8) (length selection) then rest else panic

unfoldable pub pcrs : List ℕ → Res (List ℕ)
pcrs indices = mark indices (replicate (selection_size indices) 0)
