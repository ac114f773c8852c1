-- ===== src/Examples/Stores.antt =====
-- Anchors, merges and syncs at concrete inputs.
use mathlib.Core.List.{Perm}
use protect.Examples.ThresholdRuns.{config}
use protect.History
use protect.Pool.{insert_by, sort_by_key}
use protect.Pool.Tiers.{IsSortedBy}
use protect.Prelude.{
  ℕ, ◌+◌, ◌<◌, ◌≡◌, ◌++◌, refl, true, none, some, List, [], ◌∷◌, All, length, arith, codes,
}
use protect.Store.{
  Anchor, nanos_per_milli, to_epoch_millis, to_instant, in_window, seen, kept, all_millis,
  from_rows, merged, events_of, drain, fold,
}
use protect.Store.Rows.{IsOfRow, AreTaken}
use protect.Store.Merging.{merged-Perm, merged_lem}
use protect.Store.Times.{to_instant-to_epoch_millis}
use protect.Threshold.{ThresholdPolicy}

program : Unit {0}
unfolding to_epoch_millis to_instant seen kept all_millis from_rows merged insert_by sort_by_key
    events_of drain fold
program = tt

-- Two anchors of one clock, which is 5.4 ms ahead of the instants, at the instants 5.5 ms and 5.7 ms.
abbrev first : Anchor
first = record { instant = 5_500_000; epoch_millis = 10 }

abbrev second : Anchor
second = record { instant = 5_700_000; epoch_millis = 11 }

to_instant-to_epoch_millis_example :
    (j : ℕ) × (to_instant first (to_epoch_millis first 2_600_000) ≡ some j)
    × (j < 2_600_000 + nanos_per_milli)
    × (2_600_000 < j + nanos_per_milli)
to_instant-to_epoch_millis_example = to_instant-to_epoch_millis first 2_600_000 (omega arith)

millis_of_instant : to_epoch_millis first 7_500_000 ≡ 12
unfolding program
millis_of_instant = refl

merged-Perm_example :
    (news : List ℕ) × Perm
      (merged second 5_700_000 60_000_000 (5_000_000 ∷ []) (10 ∷ 11 ∷ []))
      (kept 5_700_000 60_000_000 (5_000_000 ∷ []) ++ news)
    × All (λ i. in_window 5_700_000 60_000_000 i ≡ true) news
    × All (IsOfRow second (10 ∷ 11 ∷ [])) news
    × AreTaken second 5_700_000 60_000_000
        (all_millis second (kept 5_700_000 60_000_000 (5_000_000 ∷ [])))
        (10 ∷ 11 ∷ [])
        news
    × IsSortedBy (λ i. i) (merged second 5_700_000 60_000_000 (5_000_000 ∷ []) (10 ∷ 11 ∷ []))
merged-Perm_example = merged-Perm second 5_700_000 60_000_000 (5_000_000 ∷ []) (10 ∷ 11 ∷ [])

-- The event of the instant 5 ms is of millisecond 10 by the first anchor, and of 11 by the second.
merged_lem_example :
    length
      (merged second 6_000_000 60_000_000 (5_000_000 ∷ []) (to_epoch_millis first 5_000_000 ∷ []))
    ≡ 2
unfolding program
merged_lem_example = merged_lem first second 6_000_000 60_000_000 5_000_000 4_700_000 refl refl refl

abbrev waiting : ThresholdPolicy
waiting = record {
  config = config;
  history = History.empty;
  state = some (record { pending = (codes "dn:cn=alice", 5_000_000) ∷ [] });
}

-- Nothing of it is left for the sync after one that fails.
lost : (drain second (fold first 0 none (drain first waiting).1)).0 ≡ []
unfolding program
lost = refl
