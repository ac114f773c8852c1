-- ===== src/Examples/Audits.antt =====
-- Long strings in log lines, as in the tests of src/core/audit.rs.
use protect.Audit.{boundary_from, truncate_for_log}
use protect.Audit.Truncation.{IsChar, joined, Logged, truncate_for_log-Logged}
use protect.Prelude.{
  ℕ, zero, suc, ◌≡◌, refl, All, List, [], ◌∷◌, ◌++◌, Text, codes, decimal, decimal_digits,
  replicate, arith,
}

unfoldable truncates : Unit {0}
unfolding boundary_from truncate_for_log decimal decimal_digits
truncates = tt

abbrev letters : ℕ → List Text → List Text
letters n rest = replicate n (97 ∷ []) ++ rest

letters-IsChar : (n : ℕ) (rest : List Text) → All IsChar rest → All IsChar (letters n rest)
letters-IsChar zero rest h = h
letters-IsChar (suc n) rest h = ((refl, omega arith, tt), letters-IsChar n rest h)

-- The two bytes of an é stand on both sides of the limit.
abbrev accented : List Text
accented = letters 511 ((195 ∷ 169 ∷ []) ∷ [])

splits_no_char :
    truncate_for_log (joined accented) ≡ replicate 511 97 ++ codes "... (513 bytes total)"
unfolding truncates
splits_no_char = refl

passes_short : truncate_for_log (codes "cn=alice") ≡ codes "cn=alice"
unfolding truncates
passes_short = refl

truncate_for_log-Logged_example : Logged (joined accented) (truncate_for_log (joined accented))
truncate_for_log-Logged_example = truncate_for_log-Logged (joined accented) (
  accented,
  refl,
  letters-IsChar 511 ((195 ∷ 169 ∷ []) ∷ []) ((refl, omega arith, (refl, tt)), tt),
)
