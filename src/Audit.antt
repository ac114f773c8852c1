-- ===== src/Audit.antt =====
-- src/core/audit.rs: what a log line holds of an identity or a target.
pub mod Truncation
use protect.Prelude.{
  ℕ, zero, suc, Bool, true, ◌||◌, List, [], ◌∷◌, ◌++◌, Text, codes, decimal, length, take, leb, ltb,
  nat_eq, if◌then◌else◌,
}

abbrev pub max_logged_field_len : ℕ
max_logged_field_len = 512

-- A byte that begins a character in UTF-8, which those from 0x80 to 0xbf do not.
abbrev pub starts_char : ℕ → Bool
starts_char b = ltb b 128 || leb 192 b

abbrev pub starts_at : Text → ℕ → Bool
starts_at [] i = nat_eq i 0
starts_at (b ∷ bs) zero = starts_char b
starts_at (b ∷ bs) (suc i) = starts_at bs i

-- `str::is_char_boundary`
abbrev pub is_char_boundary : Text → ℕ → Bool
is_char_boundary value zero = true
is_char_boundary value (suc i) = starts_at value (suc i)

-- `while !value.is_char_boundary(end)`, which ends at 0 at the latest.
unfoldable pub boundary_from : Text → ℕ → ℕ
boundary_from value zero = zero
boundary_from value (suc end) =
    let lower = boundary_from value end in
    if is_char_boundary value (suc end) then suc end else lower

abbrev pub total : ℕ → Text
total len = codes "... (" ++ decimal len ++ codes " bytes total)"

unfoldable pub truncate_for_log : Text → Text
truncate_for_log value =
    if leb (length value) max_logged_field_len
    then value
    else take (boundary_from value max_logged_field_len) value ++ total (length value)
