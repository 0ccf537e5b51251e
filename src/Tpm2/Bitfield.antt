-- ===== src/Tpm2/Bitfield.antt =====
-- tpm2/bitfield.go: bitfield8 and bitfield32, `w` being 8 or 32. A position is a Go int; a negative
-- one panics as one that is too large does, and is not modelled.
pub mod Laws
use go_tpm.Base.{ℕ, ◌-◌, ◌^◌, Bool, not, bit_and, bit_or, ◌==◌, ltb, if◌then◌else◌}
use go_tpm.Base.Outcome.{ok, panic}
use go_tpm.Tpm2.Fault.{Res}

-- `r&(1<<pos) != 0`
unfoldable pub reserved_bit : ℕ → ℕ → Bool
reserved_bit r pos = not (bit_and r (2 ^ pos) == 0)

-- `*r |= 1 << pos` and `*r &= ^(1 << pos)`
unfoldable pub put_reserved_bit : ℕ → ℕ → ℕ → Bool → ℕ
put_reserved_bit w r pos val = if val then bit_or r (2 ^ pos) else bit_and r (2 ^ w - 1 - 2 ^ pos)

-- `checkPos` panics out of range.
unfoldable pub get_reserved_bit : ℕ → ℕ → ℕ → Res Bool
unfolding reserved_bit
get_reserved_bit w r pos = if ltb pos w then ok (reserved_bit r pos) else panic

unfoldable pub set_reserved_bit : ℕ → ℕ → ℕ → Bool → Res ℕ
unfolding put_reserved_bit
set_reserved_bit w r pos val = if ltb pos w then ok (put_reserved_bit w r pos val) else panic
