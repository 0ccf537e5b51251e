-- ===== src/Tpm2/ResponseCode/Descriptions.antt =====
-- tpm2/errors.go: errorDesc, and a look-up in a map from codes.
use go_tpm.Base.{ℕ, String, List, [], ◌∷◌, Option, none, some, ◌==◌, if◌then◌else◌}

pub record ErrorDesc : Type 0 where
  pub name : String
  pub description : String

abbrev pub entry : ℕ → String → String → ℕ × ErrorDesc
entry code name description = (code, record { name = name; description = description })

-- `desc, ok := m[code]`; a map's keys are distinct.
abbrev pub find : {A : Type 0} → ℕ → List (ℕ × A) → Option A
find code [] = none
find code ((k, a) ∷ rest) = if code == k then some a else find code rest
