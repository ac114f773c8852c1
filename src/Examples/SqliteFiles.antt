-- ===== src/Examples/SqliteFiles.antt =====
-- A sync of a table in a SQLite file.
use mathlib.Core.List.{Perm}
use mathlib.Core.List.Perm
use protect.Backends.{Row, times_of, IsSync}
use protect.Backends.Sqlite.{blocking_sync}
use protect.Backends.Sqlite.Syncing.{blocking_sync-IsSync, IsDescendingRows}
use protect.Core.Identity.{Identity}
use protect.Pool.{sort_by_key}
use protect.Pool.Order.{sort_by_key-Perm}
use protect.Pool.Tiers.{sort_by_key-IsSortedBy}
use protect.Prelude.{
  ℕ, ◌≤◌, none, List, [], ◌∷◌, ◌≡◌, leb, if◌then◌else◌, arith, Bool-cases, inl, inr, ok, codes, All,
}

abbrev time : Row → ℕ
time r = r.1

abbrev pub ascending : List Row → List Row
ascending rows = sort_by_key time rows

abbrev insert_down : Row → List Row → List Row
insert_down r [] = r ∷ []
insert_down r (s ∷ rows) = if leb s.1 r.1 then r ∷ s ∷ rows else s ∷ insert_down r rows

abbrev pub descending : List Row → List Row
descending [] = []
descending (r ∷ rows) = insert_down r (descending rows)

insert_down-Perm : (r : Row) (rows : List Row) → Perm (insert_down r rows) (r ∷ rows)
insert_down-Perm r [] = Perm.refl (r ∷ [])
insert_down-Perm r (s ∷ rows) = elim (Bool-cases (leb s.1 r.1)) [
  | inl le ↦ rw le (Perm.refl (r ∷ s ∷ rows))
  | inr gt ↦ rw gt (Perm.trans (Perm.cons s (insert_down-Perm r rows)) (Perm.swap r s rows))
]

descending-Perm : (rows : List Row) → Perm (descending rows) rows
descending-Perm [] = Perm.refl []
descending-Perm (r ∷ rows) =
    Perm.trans (insert_down-Perm r (descending rows)) (Perm.cons r (descending-Perm rows))

All-insert_down :
    (t : ℕ) (r : Row) (rows : List Row)
    → time r ≤ t
    → All (λ (s : Row). s.1 ≤ t) rows
    → All (λ (s : Row). s.1 ≤ t) (insert_down r rows)
All-insert_down t r [] h all = (h, tt)
All-insert_down t r (s ∷ rows) h all = elim (Bool-cases (leb s.1 r.1)) [
  | inl le ↦ rw le (h, all)
  | inr gt ↦ rw gt (all.0, All-insert_down t r rows h all.1)
]

All-le_trans :
    (t u : ℕ) (rows : List Row)
    → t ≤ u
    → All (λ (s : Row). s.1 ≤ t) rows
    → All (λ (s : Row). s.1 ≤ u) rows
All-le_trans t u [] h all = tt
All-le_trans t u (s ∷ rows) h all = (omega (arith, all.0), All-le_trans t u rows h all.1)

insert_down-IsDescendingRows :
    (r : Row) (rows : List Row) → IsDescendingRows rows → IsDescendingRows (insert_down r rows)
insert_down-IsDescendingRows r [] h = (tt, tt)
insert_down-IsDescendingRows r (s ∷ rows) h = elim (Bool-cases (leb s.1 r.1)) [
  | inl le ↦ let l : s.1 ≤ r.1 = ground arith in rw le ((l, All-le_trans s.1 r.1 rows l h.0), h)
  | inr gt ↦
      rw gt (All-insert_down s.1 r rows (ground arith) h.0, insert_down-IsDescendingRows r rows h.1)
]

descending-IsDescendingRows : (rows : List Row) → IsDescendingRows (descending rows)
descending-IsDescendingRows [] = tt
descending-IsDescendingRows (r ∷ rows) =
    insert_down-IsDescendingRows r (descending rows) (descending-IsDescendingRows rows)

abbrev pub table : List Row
table = (codes "alice", 1) ∷ (codes "bob", 5) ∷ []

abbrev new_events : List Row
new_events = (codes "carol", 7) ∷ (codes "carol", 7) ∷ []

blocking_sync-IsSync_example :
    (answer : List (Identity × List ℕ)) × (table' : List Row) × (blocking_sync ascending descending
        none new_events 2 1 table
      ≡ (ok answer, table'))
    × IsSync 2 1 new_events (λ id. times_of id table) (λ id. times_of id table') answer
blocking_sync-IsSync_example =
    blocking_sync-IsSync ascending descending (sort_by_key-Perm time) (sort_by_key-IsSortedBy time)
      descending-Perm descending-IsDescendingRows new_events table 2 1 (omega arith)
