-- ===== src/Ldap/Locks.antt =====
-- src/connector/ldap.rs: which attributes lock an account, and which writes of them.
pub mod Spelling
pub mod Writes
use protect.Core.Action.{OperationKind, account_lock, account_unlock}
use protect.Ldap.Text.{Unicode, to_lowercase, trim, from_utf8, parse_u32}
use protect.Prelude.{
  ℕ, ◌/◌, ◌%◌, Bool, true, false, ◌||◌, Option, none, some, List, [], ◌∷◌, nat_eq, if◌then◌else◌,
  Text, codes, ◌==◌, text_equality,
}

abbrev pub lock_attributes : List (Text × Text)
lock_attributes =
    (codes "pwdaccountlockedtime", codes "1.3.6.1.4.1.42.2.27.8.1.17")
    ∷ (codes "useraccountcontrol", codes "1.2.840.113556.1.4.8")
    ∷ (codes "nsaccountlock", codes "2.16.840.1.113730.3.1.220")
    ∷ (codes "shadowexpire", codes "1.3.6.1.1.1.1.10")
    ∷ []

-- `split(';').next()`
unfoldable pub before_semicolon : Text → Text
before_semicolon [] = []
before_semicolon (b ∷ bs) = if nat_eq b 59 then [] else b ∷ before_semicolon bs

unfoldable pub base_of : Unicode → Text → Text
base_of unicode attr_type = to_lowercase unicode (before_semicolon attr_type)

-- `.iter().any(..)` over the names.
unfoldable pub names : List (Text × Text) → Text → Bool
names [] base = false
names (attribute ∷ attributes) base =
    (base == attribute.0 || base == attribute.1) || names attributes base

unfoldable pub is_lock_attribute : Unicode → Text → Bool
is_lock_attribute unicode attr_type = names lock_attributes (base_of unicode attr_type)

-- `flags & UAC_ACCOUNTDISABLE != 0`
abbrev pub uac_accountdisable : ℕ → Bool
uac_accountdisable flags = nat_eq (flags / 2 % 2) 1

unfoldable pub classify_flags : Option ℕ → Option OperationKind
classify_flags none = none
classify_flags (some flags) =
    some (if uac_accountdisable flags then account_lock else account_unlock)

unfoldable pub classify_flag : Text → Option OperationKind
classify_flag text =
    if text == codes "true"
    then some account_lock
    else if text == codes "false"
    then some account_unlock
    else none

-- The `match` on the attribute, of the trimmed text.
unfoldable pub classify_text : Unicode → Text → Text → Option OperationKind
classify_text unicode base text =
    if (base == codes "useraccountcontrol") || (base == codes "1.2.840.113556.1.4.8")
    then classify_flags (parse_u32 text)
    else if (base == codes "nsaccountlock") || (base == codes "2.16.840.1.113730.3.1.220")
    then classify_flag (to_lowercase unicode text)
    else none

unfoldable pub classify_value : Unicode → Text → Option Text → Option OperationKind
classify_value unicode base none = none
classify_value unicode base (some text) = classify_text unicode base (trim unicode text)

-- `values` in the order of `to_vec`, of which the first counts.
unfoldable pub classify_lock_write : Unicode → Text → List Text → Option OperationKind
classify_lock_write unicode attr_type [] = none
classify_lock_write unicode attr_type (value ∷ values) =
    classify_value unicode (base_of unicode attr_type) (from_utf8 unicode value)
