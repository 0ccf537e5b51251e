-- ===== src/Tpm2/Structures/Tags.antt =====
-- The gotpm tags that the structures use.
use go_tpm.Base.{ℕ, true, none, some}
use go_tpm.Tpm2.Reflect.Types.{Tags, plain, Width, BitField}

abbrev pub list_tag : Tags
list_tag = record plain { list = true }

abbrev pub sized_tag : Tags
sized_tag = record plain { sized = true }

abbrev pub sized8_tag : Tags
sized8_tag = record plain { sized8 = true }

abbrev pub nullable_tag : Tags
nullable_tag = record plain { nullable = true }

abbrev pub optional_tag : Tags
optional_tag = record plain { optional = true }

abbrev pub bool_bits : ℕ → ℕ → BitField
bool_bits high low = record { width = none; high = high; low = low }

abbrev pub num_bits : Width → ℕ → ℕ → BitField
num_bits w high low = record { width = some w; high = high; low = low }
