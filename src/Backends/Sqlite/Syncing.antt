-- ===== src/Backends/Sqlite/Syncing.antt =====
-- What a sync of the SQLite store does (src/core/policy/store/sqlite.rs, `blocking_sync`).
use mathlib.Core.List.{Perm}
use mathlib.Core.List.Perm
use protect.Backends.{Row, times_of, fresh, last_seen, surviving, IsSync}
use protect.Backends.Rows.{Perm-last_seen, times_of-Perm}
use protect.Backends.Sqlite.{
  insert_all, delete_stale, group_by_identity, collect, rank_limit, beyond_limit, committed,
  blocking_sync,
}
use protect.Backends.Sqlite.Answer.{IsAscendingRows, collect-IsAnswer}
use protect.Backends.Sqlite.Ranking.{
  times_of-insert_all, times_of-delete_stale, times_of-delete_identities,
  times_of-group_by_identity,
}
use protect.Core.Identity.{Identity}
use protect.Prelude.{
  All-append_right, ℕ, zero, suc, ◌≤◌, ◌<◌, ◌^◌, none, List, [], ◌∷◌, ◌++◌, ◌≡◌, refl, ap, ◌∙◌,
  subst, length, take, drop, take-append-drop, text_equality, arith, All, ok,
}

-- Rows in the order of their numbers, largest first.
abbrev pub IsDescendingRows : List Row → Type 0
IsDescendingRows [] = Unit
IsDescendingRows (r ∷ rows) = All (λ (s : Row). s.1 ≤ r.1) rows × IsDescendingRows rows

-- The rows that are ranked last are no later than those before them.
All-cons_each :
    (r : Row) (xs ys : List Row)
    → All (λ (s : Row). s.1 ≤ r.1) ys
    → All (λ (s : Row). All (λ (t : Row). s.1 ≤ t.1) xs) ys
    → All (λ (s : Row). All (λ (t : Row). s.1 ≤ t.1) (r ∷ xs)) ys
All-cons_each r xs [] h each = tt
All-cons_each r xs (y ∷ ys) h each = ((h.0, each.0), All-cons_each r xs ys h.1 each.1)

All-nil_each : (ys : List Row) → All (λ (s : Row). All (λ (t : Row). s.1 ≤ t.1) []) ys
All-nil_each [] = tt
All-nil_each (y ∷ ys) = (tt, All-nil_each ys)

IsDescendingRows-split :
    (xs ys : List Row)
    → IsDescendingRows (xs ++ ys)
    → All (λ (s : Row). All (λ (t : Row). s.1 ≤ t.1) xs) ys
IsDescendingRows-split [] ys h = All-nil_each ys
IsDescendingRows-split (x ∷ xs) ys h =
    All-cons_each x xs ys (All-append_right (λ (s : Row). s.1 ≤ x.1) xs ys h.0)
      (IsDescendingRows-split xs ys h.1)

length-take_le : (n : ℕ) (rows : List Row) → length (take n rows) ≤ n
length-take_le zero rows = omega arith
length-take_le (suc n) [] = omega arith
length-take_le (suc n) (r ∷ rows) = omega (arith, length-take_le n rows)

length-take_full : (n : ℕ) (rows : List Row) → 0 < length (drop n rows) → length (take n rows) ≡ n
length-take_full zero rows h = refl
length-take_full (suc n) [] h = absurd (omega arith)
length-take_full (suc n) (r ∷ rows) h = ap suc (length-take_full n rows h)

module _ (ascending descending : List Row → List Row)
    (ascending-Perm : (rows : List Row) → Perm (ascending rows) rows)
    (ascending-IsAscendingRows : (rows : List Row) → IsAscendingRows (ascending rows))
    (descending-Perm : (rows : List Row) → Perm (descending rows) rows)
    (descending-IsDescendingRows : (rows : List Row) → IsDescendingRows (descending rows)) where
  -- The store refines the specification of a sync that deletes what is before the cutoff (and, unlike the doc
  -- of the trait, keeps an event exactly at it): if no statement fails, and the limit is one that an `i64`
  -- holds, a sync of the table is a sync of what it has for each identity, whatever SQLite does with rows of
  -- the same milliseconds.
  pub blocking_sync-IsSync :
      (new_events table : List Row) (cutoff max_identities : ℕ)
      → max_identities < 2 ^ 63
      → (answer : List (Identity × List ℕ)) × (table' : List Row) × (blocking_sync ascending
            descending none new_events cutoff max_identities table
          ≡ (ok answer, table'))
        × IsSync cutoff max_identities new_events
            (λ id. times_of id table)
            (λ id. times_of id table')
            answer
  unfolding blocking_sync committed beyond_limit
  blocking_sync-IsSync new_events table cutoff max_identities small =
      let recent = delete_stale cutoff (insert_all table new_events) in
      let ranking = descending (group_by_identity recent) in
      let table' = committed ascending descending new_events cutoff max_identities table in
      let limit : rank_limit max_identities ≡ max_identities = ground arith in
      let survives : (id : Identity)
          → times_of id recent ≡ surviving cutoff (λ id. times_of id table) new_events id =
        λ id.
          times_of-delete_stale id cutoff (insert_all table new_events)
          ∙ ap (fresh cutoff) (times_of-insert_all id table new_events) in
      (
        collect [] (ascending table'),
        table',
        refl,
        record {
          tracked = take max_identities ranking;
          dropped = drop max_identities ranking;
          ranked = λ id. rw (take-append-drop max_identities ranking) (
              Perm-last_seen (times_of id ranking)
                (surviving cutoff (λ id. times_of id table) new_events id)
                (subst (λ ts. Perm (times_of id ranking) (last_seen ts)) (survives id)
                  (subst (λ ts. Perm (times_of id ranking) ts)
                    (times_of-group_by_identity id recent)
                    (times_of-Perm id (descending-Perm (group_by_identity recent))))));
          bounded = length-take_le max_identities ranking;
          full = length-take_full max_identities ranking;
          stalest =
              IsDescendingRows-split (take max_identities ranking) (drop max_identities ranking) (
                rw (take-append-drop max_identities ranking)
                  (descending-IsDescendingRows (group_by_identity recent)));
          kept = λ id. rw limit (
              rw (times_of-delete_identities id (drop max_identities ranking) recent)
                (rw (survives id) (Perm.refl _)));
          answered = λ id.
              collect-IsAnswer id (ascending table') table' (ascending-Perm table')
                (ascending-IsAscendingRows table');
        },
      )
