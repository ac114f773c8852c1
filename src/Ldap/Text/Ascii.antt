-- ===== src/Ldap/Text/Ascii.antt =====
-- ASCII strings: digits are left alone by `trim`, and case is forgotten by `to_lowercase`
-- (src/connector/ldap.rs).
use protect.Ldap.Text.{
  Unicode, is_ascii, ascii_lower, to_lowercase, is_space, trim_start, trim_end, trim, trim_last,
}
use protect.Ldap.Text.Numbers.{IsDigits}
use protect.Prelude.{ℕ, ◌≡◌, ◌≤◌, ◌<◌, refl, ap, ◌∙◌, true, false, [], ◌∷◌, map, Text, arith}

pub is_ascii-IsDigits : (s : Text) → IsDigits s → is_ascii s ≡ true
is_ascii-IsDigits [] h = refl
is_ascii-IsDigits (b ∷ s) h = ground (arith, is_ascii-IsDigits s h.1)

digit_is_no_space : (b : ℕ) → 48 ≤ b → b < 58 → is_space b ≡ false
digit_is_no_space b low high = ground arith

trim_start-IsDigits : (s : Text) → IsDigits s → trim_start s ≡ s
unfolding trim_start
trim_start-IsDigits [] h = refl
trim_start-IsDigits (b ∷ s) h = rw (digit_is_no_space b h.0.0 h.0.1) refl

trim_end-IsDigits : (s : Text) → IsDigits s → trim_end s ≡ s
unfolding trim_end
trim_end-IsDigits [] h = refl
trim_end-IsDigits (b ∷ []) h = rw (digit_is_no_space b h.0.0 h.0.1) refl
trim_end-IsDigits (b ∷ c ∷ s) h = ap (trim_last b) (trim_end-IsDigits (c ∷ s) h.1)

pub trim-IsDigits : (unicode : Unicode) (s : Text) → IsDigits s → trim unicode s ≡ s
unfolding trim
trim-IsDigits unicode s h =
    rw (is_ascii-IsDigits s h) (ap trim_end (trim_start-IsDigits s h) ∙ trim_end-IsDigits s h)

pub to_lowercase-case :
    (unicode : Unicode) (s t : Text)
    → is_ascii s ≡ true
    → is_ascii t ≡ true
    → map ascii_lower s ≡ map ascii_lower t
    → to_lowercase unicode s ≡ to_lowercase unicode t
unfolding to_lowercase
to_lowercase-case unicode s t h k e = rw (h, k) e
