-- ===== src/History/Staleness.antt =====
-- `prune_stale` and the index (src/core/policy/threshold.rs): the comment there says that pruning
-- never changes the back of a window. It does where the whole window is stale.
use protect.Core.Identity.{Identity}
use protect.History.ActivitySet.{Activity, key_eq, has, insert, remove, has-insert, has-remove}
use protect.History.{
  History, activity_key, drop_stale, prune_stale, prune_entry, record_admitted, reindex,
  evict_stalest_until, len, window_len, contains_key,
}
use protect.History.Entries.{prune_stale_hit, record_admitted_hit, get-prune_stale}
use protect.History.Eviction.{evict_loop_first}
use protect.History.Index.{IsIndexed}
use protect.Prelude
use protect.Prelude.{
  ℕ, suc, ◌-◌, ◌≤◌, ◌<◌, Bool, true, false, Option, none, some, List, [], ◌∷◌, ◌++◌, ◌≡◌, ◌≢◌, refl,
  sym, ◌⊎◌, inl, inr, ◌&&◌, ◌||◌, ap, length, last, last-append_replicate, replicate, get, ltb,
  arith, text_equality, text_eq, text_eq_iff, get-insert, get-remove, Option-cases, Bool-cases,
  if◌then◌else◌, length-insert_old, length-remove-lt,
}

-- A pruned window is empty, or has its old back.
pub drop_stale-last :
    (now window : ℕ) (ts : List ℕ)
    → (drop_stale now window ts ≡ []) ⊎ (last (drop_stale now window ts) ≡ last ts)
unfolding drop_stale
drop_stale-last now window [] = inl refl
drop_stale-last now window (t ∷ []) = elim (Bool-cases (ltb window (now - t))) [
  | inl old ↦ rw old (inl refl)
  | inr new ↦ rw new (inr refl)
]
drop_stale-last now window (t ∷ u ∷ ts) = elim (Bool-cases (ltb window (now - t))) [
  | inl old ↦ rw old (drop_stale-last now window (u ∷ ts))
  | inr new ↦ rw new (inr refl)
]

module _ (h : History) (id : Identity) (now window : ℕ) where
  pruned_entry :
      (ts : List ℕ) (k : Option ℕ)
      → (drop_stale now window ts ≡ [] → ts ≡ [])
      → key_eq k (activity_key (drop_stale now window ts)) ≡ key_eq k (activity_key ts)
  unfolding drop_stale
  pruned_entry ts k kept = elim (drop_stale-last now window ts) [
    | inl gone ↦ rw (gone, kept gone)
    | inr same ↦ rw same
  ]

  emptied :
      (ts : List ℕ)
      → get id h.by_identity ≡ some ts
      → (window_len (prune_stale h id now window) id ≡ 0 → window_len h id ≡ 0)
      → drop_stale now window ts ≡ []
      → ts ≡ []
  unfolding window_len
  emptied [] hit kept gone = refl
  emptied (t ∷ ts) hit kept gone =
      ground (arith, get-prune_stale h id id now window, text_eq_iff id id)

  -- Pruning keeps the index right unless it empties a window that was not empty.
  pub prune_stale-IsIndexed :
      IsIndexed h
      → (window_len (prune_stale h id now window) id ≡ 0 → window_len h id ≡ 0)
      → IsIndexed (prune_stale h id now window)
  unfolding prune_stale window_len
  prune_stale-IsIndexed v kept = elim (Option-cases (get id h.by_identity)) [
    | inl miss ↦ rw (miss, prune_entry) v
    | inr (ts, hit) ↦
        let e = prune_stale_hit h id now window ts hit in
        rw e (record {
          sorted = v.sorted;
          exact = λ k j. ground (
            arith,
            get-insert id j (drop_stale now window ts) h.by_identity,
            text_eq_iff id j,
            pruned_entry ts k (emptied ts hit kept),
            v.exact k j,
          );
        })
  ]

  module _ (ts : List ℕ) (t : ℕ) (v : IsIndexed h) (hit : get id h.by_identity ≡ some ts)
      (back : last ts ≡ some t) (gone : drop_stale now window ts ≡ []) where
    -- If a window is not empty and all of it is stale, pruning leaves its identity in the index under an
    -- activity that its window no longer has.
    pub prune_stale-not-IsIndexed : ¬ IsIndexed (prune_stale h id now window)
    unfolding prune_stale
    prune_stale-not-IsIndexed w = ground (
      arith,
      prune_stale_hit h id now window ts hit,
      get-insert id id (drop_stale now window ts) h.by_identity,
      text_eq_iff id id,
      v.exact (some t) id,
      w.exact (some t) id,
    )

    readmitted :
        (count : ℕ)
        → record_admitted (prune_stale h id now window) id now (suc count) ≡ record {
          by_identity =
              Prelude.insert id (replicate (suc count) now) (Prelude.insert id [] h.by_identity);
          by_activity = insert (some now, id) (remove (none, id) h.by_activity);
        }
    unfolding reindex
    readmitted count =
        rw (prune_stale_hit h id now window ts hit, gone)
          (record_admitted_hit _ id now (suc count) []
            (ground (arith, get-insert id id [] h.by_identity, text_eq_iff id id)))

    -- Then the next admission indexes the identity a second time.
    pub indexed_twice :
        (count : ℕ)
        → t < now
        → (has
              (some t, id)
              (record_admitted (prune_stale h id now window) id now (suc count)).by_activity
            ≡ true)
          × (has
                (some now, id)
                (record_admitted (prune_stale h id now window) id now (suc count)).by_activity
              ≡ true)
    indexed_twice count lt = rw (readmitted count) (
      ground (
        arith,
        has-insert (some now, id) (some t, id) (remove (none, id) h.by_activity),
        has-remove (none, id) (some t, id) h.by_activity,
        v.exact (some t) id,
      ),
      ground (
        arith,
        has-insert (some now, id) (some now, id) (remove (none, id) h.by_activity),
        text_eq_iff id id,
      ),
    )

    later_key :
        (s : List Activity)
        → t < now
        → insert (some now, id) (remove (none, id) ((some t, id) ∷ s))
          ≡ (some t, id) ∷ insert (some now, id) (remove (none, id) s)
    unfolding insert remove
    later_key s lt = ground arith

    -- And where it was the stalest of all before, the next eviction that makes room for one identity
    -- takes it, although its last activity is now.
    pub evicts_active :
        (count target_len : ℕ) (s : List Activity)
        → t < now
        → h.by_activity ≡ (some t, id) ∷ s
        → len h ≡ suc target_len
        → contains_key
            (evict_stalest_until
              (record_admitted (prune_stale h id now window) id now (suc count))
              target_len)
            id
          ≡ false
    unfolding evict_stalest_until contains_key
    evicts_active count target_len s lt first full =
        let m : List (Identity × List ℕ) = Prelude.insert id [] h.by_identity in
        let old : get id m ≡ some [] =
          ground (arith, get-insert id id [] h.by_identity, text_eq_iff id id) in
        let longer : target_len < length (Prelude.insert id (replicate (suc count) now) m) =
          ground (
            arith,
            length-insert_old id (replicate (suc count) now) m,
            length-insert_old id [] h.by_identity,
          ) in
        rw (readmitted count, first, later_key s lt)
          (ground (
            arith,
            evict_loop_first target_len (Prelude.insert id (replicate (suc count) now) m) (some t)
                id (insert (some now, id) (remove (none, id) s)) longer,
          ))
