-- ===== src/Store/Merging.antt =====
-- What a merge does with an event that the store already has (src/core/policy/threshold.rs,
-- `merge_history_from_rows`).
use protect.Pool.{sort_by_key, insert_by}
use protect.Store.{
  Anchor, to_epoch_millis, to_instant, in_window, seen, kept, all_millis, from_rows, merged,
}
use mathlib.Core.List.{Perm}
use protect.Pool.Order.{sort_by_key-Perm}
use protect.Pool.Tiers.{IsSortedBy, sort_by_key-IsSortedBy}
use protect.Prelude.{
  All, ℕ, ◌≡◌, refl, true, some, List, [], ◌∷◌, ◌++◌, length, nat_eq, text_equality, if◌then◌else◌,
  arith, Bool-cases, inl, inr,
}
use protect.Store.Rows.{All-from_rows, IsOfRow, from_rows-IsOfRow, AreTaken, from_rows-IsTaken}

-- A merge loses nothing that was admitted here within the window, whatever the store returns: the window is, in
-- order, what was in it and some instants of the rows, all of them within the window; and every row of an
-- instant within the window is among those, unless an instant that was there has its milliseconds.
pub merged-Perm :
    (a : Anchor) (now window : ℕ) (existing rows : List ℕ)
    → (news : List ℕ) × Perm (merged a now window existing rows) (kept now window existing ++ news)
      × All (λ i. in_window now window i ≡ true) news
      × All (IsOfRow a rows) news
      × AreTaken a now window (all_millis a (kept now window existing)) rows news
      × IsSortedBy (λ i. i) (merged a now window existing rows)
unfolding merged
merged-Perm a now window existing rows =
    let old = kept now window existing in
    let news = from_rows a now window (all_millis a old) rows in
    (
      news,
      sort_by_key-Perm (λ i. i) (old ++ news),
      All-from_rows a now window (all_millis a old) rows,
      from_rows-IsOfRow a now window (all_millis a old) rows,
      from_rows-IsTaken a now window (all_millis a old) rows,
      sort_by_key-IsSortedBy (λ i. i) (old ++ news),
    )

-- An admitted event that one sync has stored and the next one reads back: if it is all of the window, and both
-- it and its row are within it, then it is counted once if the anchors of both syncs give it the same
-- milliseconds, and twice if they do not.
pub merged_lem :
    (first second : Anchor) (now window i j : ℕ)
    → in_window now window i ≡ true
    → to_instant second (to_epoch_millis first i) ≡ some j
    → in_window now window j ≡ true
    → length (merged second now window (i ∷ []) (to_epoch_millis first i ∷ []))
      ≡ (if nat_eq (to_epoch_millis second i) (to_epoch_millis first i) then 1 else 2)
unfolding merged kept all_millis from_rows seen sort_by_key insert_by
merged_lem first second now window i j fresh row fresh' =
    rw fresh (elim (Bool-cases (nat_eq (to_epoch_millis second i) (to_epoch_millis first i))) [
      | inl same ↦ rw same refl
      | inr other ↦ rw (other, row, fresh') (ground arith)
    ])
