-- ===== src/History.antt =====
-- `History` of src/core/policy/threshold.rs: the sliding windows of all callers, and an index of
-- the callers by their last activity. An `Instant` and a `Duration` are nanoseconds.
-- The proofs are in the modules below.
pub mod ActivitySet
pub mod Entries
pub mod Index
pub mod Eviction
pub mod Covering
pub mod Staleness
pub mod Size
use ActivitySet.{Activity, key_eq, insert, remove}
use protect.Core.Identity.{Identity}
use protect.Prelude
use protect.Prelude.{
  ℕ, zero, suc, ◌+◌, ◌-◌, Bool, Option, none, some, List, [], ◌∷◌, ◌++◌, length, last, replicate,
  get, ltb, is_some, text_equality, if◌then◌else◌,
}

pub record History : Type 0 where
  pub by_identity : List (Identity × List ℕ)
  pub by_activity : List Activity

-- `History::default()`
abbrev pub empty : History
empty = record { by_identity = []; by_activity = [] }

-- `timestamps.back().copied()`
abbrev pub activity_key : List ℕ → Option ℕ
activity_key timestamps = last timestamps

abbrev pub len : History → ℕ
len h = length h.by_identity

unfoldable pub contains_key : History → Identity → Bool
contains_key h id = is_some (get id h.by_identity)

abbrev timestamps_len : Option (List ℕ) → ℕ
timestamps_len none = 0
timestamps_len (some ts) = length ts

unfoldable pub window_len : History → Identity → ℕ
window_len h id = timestamps_len (get id h.by_identity)

ensure_entry : History → Identity → Option (List ℕ) → History
ensure_entry h id (some ts) = h
ensure_entry h id none = record {
  by_identity = Prelude.insert id [] h.by_identity;
  by_activity = insert (none, id) h.by_activity;
}

unfoldable pub ensure : History → Identity → History
unfolding ensure_entry
ensure h id = ensure_entry h id (get id h.by_identity)

-- The loop over the front of the deque. `now.duration_since(oldest)` is 0 if `oldest` is later.
unfoldable pub drop_stale : ℕ → ℕ → List ℕ → List ℕ
drop_stale now window [] = []
drop_stale now window (oldest ∷ ts) =
    let rest = drop_stale now window ts in if ltb window (now - oldest) then rest else oldest ∷ ts

prune_entry : History → Identity → ℕ → ℕ → Option (List ℕ) → History
prune_entry h id now window none = h
prune_entry h id now window (some ts) = record h {
  by_identity = Prelude.insert id (drop_stale now window ts) h.by_identity;
}

unfoldable pub prune_stale : History → Identity → ℕ → ℕ → History
unfolding prune_entry
prune_stale h id now window = prune_entry h id now window (get id h.by_identity)

-- The index is touched only if `back()` was another instant before the pushes, and then also when
-- nothing was pushed.
pub reindex : Bool → Option ℕ → Identity → ℕ → List Activity → List Activity
reindex same old_key id now s = if same then s else insert (some now, id) (remove (old_key, id) s)

admit_entry : History → Identity → ℕ → ℕ → Option (List ℕ) → History
admit_entry h id now count none = h
admit_entry h id now count (some ts) = record {
  by_identity = Prelude.insert id (ts ++ replicate count now) h.by_identity;
  by_activity =
      reindex (key_eq (activity_key ts) (some now)) (activity_key ts) id now h.by_activity;
}

unfoldable pub record_admitted : History → Identity → ℕ → ℕ → History
unfolding admit_entry reindex
record_admitted h id now count = admit_entry h id now count (get id h.by_identity)

forget_key : Identity → Option (List ℕ) → List Activity → List Activity
forget_key id none s = s
forget_key id (some old) s = remove (activity_key old, id) s

-- `set` once the old key is out of the index.
store_entry : History → Identity → List ℕ → List Activity → History
store_entry h id [] s = record { by_identity = Prelude.remove id h.by_identity; by_activity = s }
store_entry h id (t ∷ ts) s = record {
  by_identity = Prelude.insert id (t ∷ ts) h.by_identity;
  by_activity = insert (activity_key (t ∷ ts), id) s;
}

unfoldable pub set : History → Identity → List ℕ → History
unfolding forget_key store_entry
set h id timestamps =
    store_entry h id timestamps (forget_key id (get id h.by_identity) h.by_activity)

-- The loop pops the first element of the index in each round, so it recurs on the index.
pub evict_loop : ℕ → List (Identity × List ℕ) → List Activity → History
evict_loop target_len m [] = record { by_identity = m; by_activity = [] }
evict_loop target_len m ((k, id) ∷ s) =
    let rest = evict_loop target_len (Prelude.remove id m) s in
    if ltb target_len (length m)
    then rest
    else record { by_identity = m; by_activity = (k, id) ∷ s }

unfoldable pub evict_stalest_until : History → ℕ → History
unfolding evict_loop
evict_stalest_until h target_len = evict_loop target_len h.by_identity h.by_activity
