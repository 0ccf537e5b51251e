-- ===== src/Tpm2/Commands/Layout.antt =====
-- tpm2/tpm2.go: how the fields of the commands and of their responses are laid out.
use go_tpm.Base.{all_hold, all_distinct, ◌≡◌, refl, Bool, true, ◌&&◌, map, leb}
use go_tpm.Tpm2.Command.{Command, is_handle_field, is_handle_out}
use go_tpm.Tpm2.Command.Order.{handles_first, count_true}
use go_tpm.Tpm2.Commands.{all_commands}

-- Handles come before parameters in the command and in its response, and there are at most three
-- and at most one of them.
abbrev well_laid : Command → Bool
well_laid c =
    handles_first (map is_handle_field c.fields)
    && leb (count_true (map is_handle_field c.fields)) 3
    && handles_first (map is_handle_out c.response)
    && leb (count_true (map is_handle_out c.response)) 1

-- In every command of the package the handles come before the parameters and are at most three, in
-- every response they come first and are at most one, and no two commands have the same code.
pub all_commands-well_laid :
    (all_hold well_laid all_commands ≡ true)
    × (all_distinct (map (λ c. c.code) all_commands) ≡ true)
all_commands-well_laid = (refl, refl)
