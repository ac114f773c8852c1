-- ===== src/Ldap/Dn.antt =====
-- src/connector/ldap.rs: DNs as they become identities and targets.
use protect.Ldap.Text.{Unicode, to_lowercase, hex}
use protect.Prelude.{ℕ, ◌++◌, leb, length, if◌then◌else◌, Text, codes, decimal}

abbrev pub max_dn_len : ℕ
max_dn_len = 256

abbrev pub marker : ℕ → ℕ → Text
marker len hash =
    codes "(oversized DN, " ++ decimal len ++ codes " bytes, hash " ++ hex 16 hash ++ codes ")"

-- `hash_one` is the keyed hash of the process.
unfoldable pub cap_dn : (Text → ℕ) → Text → Text
cap_dn hash_one dn = if leb (length dn) max_dn_len then dn else marker (length dn) (hash_one dn)

unfoldable pub normalize_bind_dn : Unicode → Text → Text
normalize_bind_dn unicode dn = to_lowercase unicode dn
