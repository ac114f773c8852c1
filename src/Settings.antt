-- ===== src/Settings.antt =====
-- The store that a policy file may name for a threshold policy (src/core/policy/threshold.rs, `StateDbConfig`).
pub mod Redaction
use protect.Prelude.{
  ℕ, ◌+◌, Bool, true, false, Option, none, some, List, [], ◌∷◌, ◌++◌, drop, nat_eq, if◌then◌else◌,
  Text, codes,
}

pub record ValkeyClientCertConfig : Type 0 where
  pub cert_file : Text
  pub key_file : Text

pub record ValkeyStateDbConfig : Type 0 where
  pub url : Text
  pub key_prefix : Text
  pub ca_file : Option Text
  pub client_cert : Option ValkeyClientCertConfig
  pub username : Option Text
  pub password : Option Text

pub data StateDbConfig : Type 0 where
  sqlite : Text → StateDbConfig
  valkey : ValkeyStateDbConfig → StateDbConfig

unfoldable pub default_valkey_key_prefix : Text
default_valkey_key_prefix = codes "ai_protect:threshold"

unfoldable pub default_flush_interval : ℕ
default_flush_interval = 2_000_000_000

unfoldable pub default_max_tracked_identities : ℕ
default_max_tracked_identities = 100_000

-- Whether a text begins with another one.
unfoldable pub starts_with : Text → Text → Bool
starts_with [] text = true
starts_with (c ∷ pattern) [] = false
starts_with (c ∷ pattern) (d ∷ text) =
    let rest = starts_with pattern text in if nat_eq c d then rest else false

abbrev pub prepend : ℕ → Option (Text × Text) → Option (Text × Text)
prepend c none = none
prepend c (some (before, after)) = some (c ∷ before, after)

-- The text before the first `://`, and from there on.
unfoldable pub split_scheme : Text → Option (Text × Text)
split_scheme [] = none
split_scheme (c ∷ text) =
    let rest = split_scheme text in
    if starts_with (codes "://") (c ∷ text) then some ([], c ∷ text) else prepend c rest

-- `split_at` the first `/`, or the end.
unfoldable pub split_authority : Text → Text × Text
split_authority [] = ([], [])
split_authority (c ∷ text) =
    let rest = split_authority text in if nat_eq c 47 then ([], c ∷ text) else (c ∷ rest.0, rest.1)

-- What follows the last `@`, if there is one.
unfoldable pub after_last_at : Text → Option Text
after_last_at [] = none
after_last_at (c ∷ text) = elim (after_last_at text) [
  | some rest ↦ some rest
  | none ↦ if nat_eq c 64 then some text else none
]

abbrev pub redacted_authority : Text → Text → Text → Option Text → Text
redacted_authority url scheme remainder none = url
redacted_authority url scheme remainder (some host) =
    scheme ++ (codes "://<redacted>@" ++ (host ++ remainder))

abbrev pub redacted_rest : Text → Option (Text × Text) → Text
redacted_rest url none = codes "<redacted: unparseable state_db url>"
redacted_rest url (some (scheme, rest)) =
    let split = split_authority (drop 3 rest) in
    redacted_authority url scheme split.1 (after_last_at split.0)

unfoldable pub redact_valkey_url : Text → Text
redact_valkey_url url = redacted_rest url (split_scheme url)
