-- ===== src/Backends/Valkey/Seen.antt =====
-- The last events of the identities in a map (src/core/policy/store/valkey.rs, `by_last_seen`).
use mathlib.Core.List.{Perm}
use mathlib.Core.List.Perm
use protect.Backends.{times_of, latest, last_seen, IsAnswer, IsAscending}
use protect.Backends.Rows.{times_of-nil, times_of-insert, to_list, latest-Perm, length-Perm}
use protect.Backends.Valkey.{by_last_seen, last_or_min}
use protect.Core.Identity.{Identity}
use protect.Prelude.{
  ℕ, suc, Option, none, some, List, [], ◌∷◌, ◌≡◌, refl, ap, ◌∙◌, ◌==◌, text_equality, arith,
  Bool-cases, inl, inr, get, insert, last, map_option, length, get-insert,
}

abbrev pub seen_at : List ℕ → ℕ
seen_at timestamps = last_or_min (last timestamps)

by_last_seen-insert :
    (id : Identity) (ts : List ℕ) (rows : List (Identity × List ℕ))
    → by_last_seen (insert id ts rows) ≡ insert id (seen_at ts) (by_last_seen rows)
unfolding by_last_seen insert
by_last_seen-insert id ts [] = refl
by_last_seen-insert id ts ((j, us) ∷ rows) = elim (Bool-cases (j == id)) [
  | inl same ↦ rw same refl
  | inr other ↦ rw other (ap (◌∷◌ (j, seen_at us)) (by_last_seen-insert id ts rows))
]

get-by_last_seen :
    (id : Identity) (rows : List (Identity × List ℕ))
    → get id (by_last_seen rows) ≡ map_option seen_at (get id rows)
unfolding by_last_seen get
get-by_last_seen id [] = refl
get-by_last_seen id ((j, us) ∷ rows) = elim (Bool-cases (j == id)) [
  | inl same ↦ rw same refl
  | inr other ↦ rw other (get-by_last_seen id rows)
]

pub length-by_last_seen :
    (rows : List (Identity × List ℕ)) → length (by_last_seen rows) ≡ length rows
unfolding by_last_seen
length-by_last_seen [] = refl
length-by_last_seen ((j, us) ∷ rows) = ap suc (length-by_last_seen rows)

-- No identity is twice in the map.
abbrev pub IsUnique : List (Identity × List ℕ) → Type 0
IsUnique rows =
    (id : Identity) → times_of id (by_last_seen rows) ≡ to_list (map_option seen_at (get id rows))

pub nil-IsUnique : IsUnique []
unfolding by_last_seen get
nil-IsUnique id = times_of-nil id

pub insert-IsUnique :
    (j : Identity) (ts : List ℕ) (rows : List (Identity × List ℕ))
    → IsUnique rows
    → IsUnique (insert j ts rows)
insert-IsUnique j ts rows h id =
    rw
      (
        by_last_seen-insert j ts rows,
        times_of-insert id j (seen_at ts) (by_last_seen rows) (rw (get-by_last_seen j rows) (h j)),
        get-insert j id ts rows,
      )
      (elim (Bool-cases (j == id)) [ inl same ↦ rw same refl | inr other ↦ rw other (h id) ])

-- The last one of events in order is the latest.
seen_at_ascending :
    (t : ℕ) (ts : List ℕ) → IsAscending (t ∷ ts) → seen_at (t ∷ ts) ≡ latest (t ∷ ts)
unfolding latest
seen_at_ascending t [] h = ground arith
seen_at_ascending t (u ∷ ts) h = seen_at_ascending u ts h.1 ∙ omega (arith, h.0.0)

pub last_seen_lem :
    (o : Option (List ℕ)) (us ws : List ℕ)
    → IsAnswer o us
    → Perm us ws
    → to_list (map_option seen_at o) ≡ last_seen ws
last_seen_lem none us [] h p = refl
last_seen_lem none us (w ∷ ws) h p = absurd (omega (arith, length-Perm p, ap (length {A = ℕ}) h))
last_seen_lem (some ts) us [] h p = absurd (omega (arith, length-Perm p, h.2))
last_seen_lem (some []) us (w ∷ ws) h p = absurd (omega (arith, length-Perm h.0, length-Perm p))
last_seen_lem (some (t ∷ ts)) us (w ∷ ws) h p =
    ap (λ (x : ℕ). x ∷ []) (seen_at_ascending t ts h.1 ∙ latest-Perm (Perm.trans h.0 p))
