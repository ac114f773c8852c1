-- ===== src/Ldap/Locks/Writes.antt =====
-- What the writes of Active Directory's and 389 DS's lock attributes mean (src/connector/ldap.rs,
-- `classify_lock_write`).
use protect.Core.Action.{account_lock, account_unlock}
use protect.Ldap.Locks.{
  base_of, classify_lock_write, classify_value, classify_text, classify_flags, uac_accountdisable,
}
use protect.Ldap.Text.{Unicode, from_utf8, u32_mod}
use protect.Ldap.Text.Ascii.{is_ascii-IsDigits, trim-IsDigits}
use protect.Ldap.Text.Numbers.{parse_u32-decimal, decimal-IsDigits}
use protect.Prelude.{
  ℕ, ◌≡◌, ◌<◌, ◌⊎◌, inl, inr, refl, text_equality, some, List, ◌∷◌, if◌then◌else◌, Text, codes,
  decimal, text_eq,
}

-- Whatever flags of 32 bits are written in decimals to the account control of Active Directory, by
-- its name or its OID, the write locks the account if the flag ACCOUNTDISABLE is among them and unlocks
-- it if not.
pub classify_lock_write-decimal :
    (unicode : Unicode) (attr_type : Text) (flags : ℕ) (values : List Text)
    → (base_of unicode attr_type ≡ codes "useraccountcontrol")
      ⊎ (base_of unicode attr_type ≡ codes "1.2.840.113556.1.4.8")
    → flags < u32_mod
    → classify_lock_write unicode attr_type (decimal flags ∷ values)
      ≡ some (if uac_accountdisable flags then account_lock else account_unlock)
unfolding classify_lock_write classify_value from_utf8 classify_text text_eq classify_flags
classify_lock_write-decimal unicode attr_type flags values named h =
    let digits = decimal-IsDigits flags in
    rw
      (
        is_ascii-IsDigits (decimal flags) digits,
        trim-IsDigits unicode (decimal flags) digits,
        parse_u32-decimal flags h,
      )
      (elim named [ inl e ↦ rw e refl | inr e ↦ rw e refl ])
