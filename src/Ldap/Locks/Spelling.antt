-- ===== src/Ldap/Locks/Spelling.antt =====
-- How an attribute may be spelled (src/connector/ldap.rs, `is_lock_attribute`).
use protect.Ldap.Locks.{
  before_semicolon, base_of, is_lock_attribute, classify_lock_write, classify_value,
  lock_attributes, names,
}
use protect.Ldap.Text.{Unicode, from_utf8, is_ascii, ascii_lower}
use protect.Ldap.Text.Ascii.{to_lowercase-case}
use protect.Prelude.{
  not, ◌&&◌, ℕ, ◌≡◌, refl, ap, Bool, true, false, List, [], ◌∷◌, ◌++◌, map, nat_eq, Text, arith,
}

-- No `;` stands in it.
abbrev pub is_plain : Text → Bool
is_plain [] = true
is_plain (b ∷ s) = not (nat_eq b 59) && is_plain s

is_plain-cons :
    (b : ℕ) (s : Text) → is_plain (b ∷ s) ≡ true → (nat_eq b 59 ≡ false) × (is_plain s ≡ true)
is_plain-cons b s h = ground arith

before_semicolon-plain : (s : Text) → is_plain s ≡ true → before_semicolon s ≡ s
unfolding before_semicolon
before_semicolon-plain [] h = refl
before_semicolon-plain (b ∷ s) h =
    let (other, rest) = is_plain-cons b s h in rw (other, before_semicolon-plain s rest) refl

before_semicolon-options :
    (s options : Text) → is_plain s ≡ true → before_semicolon (s ++ 59 ∷ options) ≡ s
unfolding before_semicolon
before_semicolon-options [] options h = refl
before_semicolon-options (b ∷ s) options h =
    let (other, rest) = is_plain-cons b s h in
    rw (other, before_semicolon-options s options rest) refl

base_of-spelling :
    (unicode : Unicode) (s t options : Text)
    → is_plain s ≡ true
    → is_plain t ≡ true
    → is_ascii s ≡ true
    → is_ascii t ≡ true
    → map ascii_lower s ≡ map ascii_lower t
    → base_of unicode (s ++ 59 ∷ options) ≡ base_of unicode t
unfolding base_of
base_of-spelling unicode s t options plain plain' ascii ascii' e =
    rw (before_semicolon-options s options plain, before_semicolon-plain t plain')
      (to_lowercase-case unicode s t ascii ascii' e)

-- Neither the case of an attribute's ASCII name nor its options hide it: both spellings are recognized
-- alike, and a write to it is classified alike.
pub is_lock_attribute-spelling :
    (unicode : Unicode) (s t options : Text) (values : List Text)
    → is_plain s ≡ true
    → is_plain t ≡ true
    → is_ascii s ≡ true
    → is_ascii t ≡ true
    → map ascii_lower s ≡ map ascii_lower t
    → (is_lock_attribute unicode (s ++ 59 ∷ options) ≡ is_lock_attribute unicode t)
      × (classify_lock_write unicode (s ++ 59 ∷ options) values
          ≡ classify_lock_write unicode t values)
unfolding is_lock_attribute classify_lock_write
is_lock_attribute-spelling unicode s t options [] plain plain' ascii ascii' e = (
  ap (names lock_attributes) (base_of-spelling unicode s t options plain plain' ascii ascii' e),
  refl,
)
is_lock_attribute-spelling unicode s t options (v ∷ vs) plain plain' ascii ascii' e =
    let base = base_of-spelling unicode s t options plain plain' ascii ascii' e in
    (ap (names lock_attributes) base, ap (λ b. classify_value unicode b (from_utf8 unicode v)) base)
