-- ===== src/Prelude/Decimal.antt =====
-- `Display` of unsigned integers, and `str::parse` of one of 32 bits.
use Prim.Native.Nat.{ℕ, zero, suc, ◌+◌, ◌/◌, ◌%◌}
use mathlib.Core.Bool.{true, false}
use mathlib.Core.List.{[], ◌∷◌, ◌++◌}
use protect.Prelude.Equality.{Text}
use protect.Prelude.Tests.{ltb}

-- At most `fuel` digits, the last one first to be split off.
unfoldable pub decimal_digits : ℕ → ℕ → Text
decimal_digits zero n = []
decimal_digits (suc fuel) n = elim (ltb n 10) [
  | true ↦ (48 + n) ∷ []
  | false ↦ decimal_digits fuel (n / 10) ++ (48 + n % 10) ∷ []
]

-- A `usize` has at most 20 digits.
unfoldable pub decimal : ℕ → Text
unfolding decimal_digits
decimal n = decimal_digits 20 n
