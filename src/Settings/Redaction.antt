-- ===== src/Settings/Redaction.antt =====
-- What a log line shows of the URL of a store (src/core/policy/threshold.rs, `redact_valkey_url`).
use protect.Settings.{starts_with, split_scheme, split_authority, after_last_at, redact_valkey_url}
use protect.Prelude.{
  ℕ, ◌≡◌, ◌≢◌, refl, ap, ◌∙◌, Option, none, some, [], ◌∷◌, ◌++◌, Text, codes, All, arith,
  append-nil,
}

-- Text without a character.
abbrev pub HasNo : ℕ → Text → Type 0
HasNo c text = All (λ b. b ≢ c) text

split_scheme-append :
    (scheme rest : Text)
    → HasNo 58 scheme
    → split_scheme (scheme ++ (codes "://" ++ rest)) ≡ some (scheme, codes "://" ++ rest)
unfolding split_scheme starts_with
split_scheme-append [] rest h = refl
split_scheme-append (c ∷ scheme) rest h = ground (arith, h.0, split_scheme-append scheme rest h.1)

split_authority-append :
    (authority rest : Text)
    → HasNo 47 authority
    → split_authority (authority ++ (47 ∷ rest)) ≡ (authority, 47 ∷ rest)
unfolding split_authority
split_authority-append [] rest h = refl
split_authority-append (c ∷ authority) rest h =
    ground (arith, h.0, split_authority-append authority rest h.1)

split_authority-whole :
    (authority : Text) → HasNo 47 authority → split_authority authority ≡ (authority, [])
unfolding split_authority
split_authority-whole [] h = refl
split_authority-whole (c ∷ authority) h = ground (arith, h.0, split_authority-whole authority h.1)

after_last_at-none : (host : Text) → HasNo 64 host → after_last_at host ≡ none
unfolding after_last_at
after_last_at-none [] h = refl
after_last_at-none (c ∷ host) h = rw (after_last_at-none host h.1) (ground (arith, h.0))

after_last_at-append :
    (userinfo host : Text) → HasNo 64 host → after_last_at (userinfo ++ (64 ∷ host)) ≡ some host
unfolding after_last_at
after_last_at-append [] host h = rw (after_last_at-none host h) refl
after_last_at-append (c ∷ userinfo) host h = rw (after_last_at-append userinfo host h) refl

-- The path of a URL, from its slash on, or nothing.
abbrev pub path_text : Option Text → Text
path_text none = []
path_text (some path) = 47 ∷ path

split_authority-path :
    (authority : Text) (path : Option Text)
    → HasNo 47 authority
    → split_authority (authority ++ path_text path) ≡ (authority, path_text path)
split_authority-path authority none h =
    ap split_authority (append-nil authority) ∙ split_authority-whole authority h
split_authority-path authority (some path) h = split_authority-append authority path h

-- If the credentials that a URL has before its host have no slash, its scheme has no colon and its host
-- neither a slash nor an @, the log line shows none of the credentials, and all of the rest.
pub redact_valkey_url-userinfo :
    (scheme userinfo host : Text) (path : Option Text)
    → HasNo 58 scheme
    → HasNo 47 (userinfo ++ (64 ∷ host))
    → HasNo 64 host
    → redact_valkey_url (scheme ++ (codes "://" ++ ((userinfo ++ (64 ∷ host)) ++ path_text path)))
      ≡ scheme ++ (codes "://<redacted>@" ++ (host ++ path_text path))
unfolding redact_valkey_url
redact_valkey_url-userinfo scheme userinfo host path no_colon no_slash no_at =
    rw (split_scheme-append scheme ((userinfo ++ (64 ∷ host)) ++ path_text path) no_colon) (
      rw (split_authority-path (userinfo ++ (64 ∷ host)) path no_slash)
        (rw (after_last_at-append userinfo host no_at) refl))

-- A URL with no credentials is shown as it is.
pub redact_valkey_url-plain :
    (scheme host : Text) (path : Option Text)
    → HasNo 58 scheme
    → HasNo 47 host
    → HasNo 64 host
    → redact_valkey_url (scheme ++ (codes "://" ++ (host ++ path_text path)))
      ≡ scheme ++ (codes "://" ++ (host ++ path_text path))
unfolding redact_valkey_url
redact_valkey_url-plain scheme host path no_colon no_slash no_at =
    rw (split_scheme-append scheme (host ++ path_text path) no_colon)
      (rw (split_authority-path host path no_slash) (rw (after_last_at-none host no_at) refl))
