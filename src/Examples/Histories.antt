-- ===== src/Examples/Histories.antt =====
-- Histories with two callers.
use protect.Core.Identity.{Identity}
use protect.History.{
  History, empty, ensure, prune_stale, record_admitted, contains_key, drop_stale,
  evict_stalest_until, window_len,
}
use protect.History.ActivitySet.{activity_lt, has, insert, remove, text_lt}
use protect.History.Eviction.{evicts_stalest}
use protect.History.Index.{IsIndexed, ensure-IsIndexed, record_admitted-IsIndexed, IsIndexed-empty}
use protect.History.Staleness.{evicts_active}
use protect.Prelude
use protect.Prelude.{
  ℕ, suc, Bool, true, false, none, some, ◌≡◌, refl, List, [], ◌∷◌, Text, codes, arith, get, text_eq,
  text_equality,
}

program : Unit {0}
unfolding ensure prune_stale record_admitted contains_key drop_stale evict_stalest_until window_len
    has insert remove text_lt text_eq get Prelude.insert Prelude.remove
program = tt

abbrev alice : Identity
alice = codes "dn:alice"

abbrev bob : Identity
bob = codes "dn:bob"

-- `alice` was active at 10, `bob` at 20.
abbrev pair : History
pair =
    let one = record_admitted (ensure empty alice) alice 10 1 in
    record_admitted (ensure one bob) bob 20 1

pair_index : pair.by_activity ≡ (some 10, alice) ∷ (some 20, bob) ∷ []
unfolding program
pair_index = refl

pair-IsIndexed : IsIndexed pair
pair-IsIndexed =
    let one = record_admitted (ensure empty alice) alice 10 1 in
    record_admitted-IsIndexed (ensure one bob) bob 20 0 (
      ensure-IsIndexed one bob (
        record_admitted-IsIndexed (ensure empty alice) alice 10 0
          (ensure-IsIndexed empty alice IsIndexed-empty)))

evicts_stalest_example :
    (activity_lt (some 10, alice) (some 20, bob) ≡ true)
    × (get bob pair.by_identity ≡ some (20 ∷ []))
unfolding program
evicts_stalest_example =
    evicts_stalest pair 1 pair-IsIndexed alice bob (10 ∷ []) (20 ∷ []) refl refl refl

-- At 1000 the window of 100 has passed both by. `alice` is active again, `bob` is not, and it is
-- `alice` that the next eviction takes.
evicts_active_example :
    contains_key
      (evict_stalest_until (record_admitted (prune_stale pair alice 1000 100) alice 1000 1) 1)
      alice
    ≡ false
unfolding program
evicts_active_example =
    evicts_active pair alice 1000 100 (10 ∷ []) 10 pair-IsIndexed refl refl refl 0 1
      ((some 20, bob) ∷ []) (omega arith) refl refl
