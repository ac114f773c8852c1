-- ===== src/Ldap/Text.antt =====
-- The operations on strings that src/connector/ldap.rs takes from the standard library. They are written
-- out for ASCII; what Unicode's tables say of other strings is a parameter.
pub mod Numbers
pub mod Ascii
use protect.Prelude.{
  ℕ, ◌+◌, ◌*◌, ◌/◌, ◌%◌, ◌^◌, ◌-◌, Bool, true, false, ◌&&◌, ◌||◌, Option, none, some, List, [], ◌∷◌,
  ◌++◌, map, leb, ltb, nat_eq, if◌then◌else◌, Text, zero, suc,
}

-- What is used only on bytes that are not all ASCII.
pub record Unicode : Type 0 where
  pub lowercase : Text → Text
  pub trim : Text → Text
  pub is_utf8 : Text → Bool
  pub from_utf8_lossy : Text → Text

abbrev pub is_ascii : Text → Bool
is_ascii [] = true
is_ascii (b ∷ bs) = ltb b 128 && is_ascii bs

abbrev pub ascii_lower : ℕ → ℕ
ascii_lower b = if leb 65 b && leb b 90 then b + 32 else b

unfoldable pub to_lowercase : Unicode → Text → Text
to_lowercase unicode s = if is_ascii s then map ascii_lower s else unicode.lowercase s

abbrev pub is_space : ℕ → Bool
is_space b = (leb 9 b && leb b 13) || nat_eq b 32

unfoldable pub trim_start : Text → Text
trim_start [] = []
trim_start (b ∷ bs) = if is_space b then trim_start bs else b ∷ bs

-- `rest` is the trimmed rest.
abbrev trim_last : ℕ → Text → Text
trim_last b [] = if is_space b then [] else b ∷ []
trim_last b (c ∷ rest) = b ∷ c ∷ rest

unfoldable pub trim_end : Text → Text
trim_end [] = []
trim_end (b ∷ bs) = trim_last b (trim_end bs)

unfoldable pub trim : Unicode → Text → Text
trim unicode s = if is_ascii s then trim_end (trim_start s) else unicode.trim s

unfoldable pub from_utf8 : Unicode → Text → Option Text
from_utf8 unicode s = if is_ascii s || unicode.is_utf8 s then some s else none

unfoldable pub from_utf8_lossy : Unicode → Text → Text
from_utf8_lossy unicode s = if is_ascii s then s else unicode.from_utf8_lossy s

abbrev pub is_digit : ℕ → Bool
is_digit b = leb 48 b && leb b 57

abbrev pub u32_mod : ℕ
u32_mod = 2 ^ 32

-- The digits of a `u32` after those of `n`; an overflow is an error as soon as it occurs.
unfoldable pub parse_digits : ℕ → Text → Option ℕ
parse_digits n [] = some n
parse_digits n (b ∷ bs) =
    let rest = parse_digits (n * 10 + (b - 48)) bs in
    if is_digit b && ltb (n * 10 + (b - 48)) u32_mod then rest else none

-- `str::parse::<u32>`, with the one sign that it admits.
abbrev parse_unsigned : Text → Option ℕ
unfolding parse_digits
parse_unsigned [] = none
parse_unsigned (b ∷ bs) = parse_digits 0 (b ∷ bs)

unfoldable pub parse_u32 : Text → Option ℕ
unfolding parse_unsigned
parse_u32 [] = none
parse_u32 (b ∷ bs) = if nat_eq b 43 then parse_unsigned bs else parse_digits 0 (b ∷ bs)

abbrev pub hex_digit : ℕ → ℕ
hex_digit n = if ltb n 10 then 48 + n else 87 + n

-- `{:016x}` of a `u64`: so many digits.
unfoldable pub hex : ℕ → ℕ → Text
hex zero n = []
hex (suc digits) n = hex digits (n / 16) ++ hex_digit (n % 16) ∷ []
