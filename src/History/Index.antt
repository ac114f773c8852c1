-- ===== src/History/Index.antt =====
-- The index of `History` against the map that it indexes (src/core/policy/threshold.rs, the comments
-- on `History` and `prune_stale`).
use protect.Core.Identity.{Identity}
use protect.History.ActivitySet.{
  key_eq, key_eq_iff, has, remove, has-insert, has-remove, insert-IsSorted, remove-IsSorted,
  IsSorted,
}
use protect.History.{
  History, empty, activity_key, ensure, ensure_entry, record_admitted, admit_entry, forget_key,
  reindex, set,
}
use protect.Prelude.{
  ℕ, suc, last-append_replicate, Bool, false, Option, none, some, List, [], ◌∷◌, ◌++◌, ◌≡◌, refl,
  inl, inr, last, replicate, get, arith, text_equality, text_eq_iff, get-insert, get-remove,
  Option-cases, Bool-cases,
}

-- What the index should hold of an identity with this window.
abbrev pub indexed : Option ℕ → Option (List ℕ) → Bool
indexed k none = false
indexed k (some ts) = key_eq k (activity_key ts)

-- The index is a set in order, with exactly one element for each identity: its last activity.
pub record IsIndexed (h : History) : Type 0 where
  pub sorted : IsSorted h.by_activity
  pub exact :
      (k : Option ℕ) (id : Identity) → has (k, id) h.by_activity ≡ indexed k (get id h.by_identity)

module _ (h : History) (id : Identity) where
  pub ensure-IsIndexed : IsIndexed h → IsIndexed (ensure h id)
  unfolding ensure
  ensure-IsIndexed v = elim (Option-cases (get id h.by_identity)) [
    | inl miss ↦
        rw (miss, ensure_entry)
          (record {
            sorted = insert-IsSorted (none, id) h.by_activity v.sorted;
            exact = λ k j. ground (
              arith,
              has-insert (none, id) (k, j) h.by_activity,
              get-insert id j [] h.by_identity,
              text_eq_iff id j,
              v.exact k j,
            );
          })
    | inr (ts, hit) ↦ rw (hit, ensure_entry) v
  ]

  pub record_admitted-IsIndexed :
      (now count : ℕ) → IsIndexed h → IsIndexed (record_admitted h id now (suc count))
  unfolding record_admitted
  record_admitted-IsIndexed now count v = elim (Option-cases (get id h.by_identity)) [
    | inl miss ↦ rw (miss, admit_entry) v
    | inr (ts, hit) ↦ elim (Bool-cases (key_eq (activity_key ts) (some now))) [
      | inl same ↦
          rw (hit, admit_entry, same, reindex)
            (record {
              sorted = v.sorted;
              exact = λ k j. ground (
                arith,
                get-insert id j (ts ++ replicate (suc count) now) h.by_identity,
                last-append_replicate ts count now,
                text_eq_iff id j,
                key_eq_iff (activity_key ts) (some now),
                v.exact k j,
              );
            })
      | inr other ↦
          rw (hit, admit_entry, other, reindex)
            (record {
              sorted =
                  insert-IsSorted (some now, id) _
                    (remove-IsSorted (activity_key ts, id) h.by_activity v.sorted);
              exact = λ k j. ground (
                arith,
                get-insert id j (ts ++ replicate (suc count) now) h.by_identity,
                has-insert (some now, id) (k, j) (remove (activity_key ts, id) h.by_activity),
                has-remove (activity_key ts, id) (k, j) h.by_activity,
                last-append_replicate ts count now,
                text_eq_iff id j,
                key_eq_iff (activity_key ts) k,
                key_eq_iff k (activity_key ts),
                v.exact k j,
              );
            })
    ]
  ]

  pub set-IsIndexed : (ts : List ℕ) → IsIndexed h → IsIndexed (set h id ts)
  unfolding set
  set-IsIndexed [] v = elim (Option-cases (get id h.by_identity)) [
    | inl miss ↦
        rw (miss, forget_key)
          (record {
            sorted = v.sorted;
            exact =
                λ k j. ground (arith, get-remove id j h.by_identity, text_eq_iff id j, v.exact k j);
          })
    | inr (old, hit) ↦
        rw (hit, forget_key)
          (record {
            sorted = remove-IsSorted (activity_key old, id) h.by_activity v.sorted;
            exact = λ k j. ground (
              arith,
              get-remove id j h.by_identity,
              has-remove (activity_key old, id) (k, j) h.by_activity,
              text_eq_iff id j,
              key_eq_iff (activity_key old) k,
              key_eq_iff k (activity_key old),
              v.exact k j,
            );
          })
  ]
  set-IsIndexed (t ∷ ts) v = elim (Option-cases (get id h.by_identity)) [
    | inl miss ↦
        rw (miss, forget_key)
          (record {
            sorted = insert-IsSorted (last (t ∷ ts), id) h.by_activity v.sorted;
            exact = λ k j. ground (
              arith,
              get-insert id j (t ∷ ts) h.by_identity,
              has-insert (last (t ∷ ts), id) (k, j) h.by_activity,
              text_eq_iff id j,
              key_eq_iff (last (t ∷ ts)) k,
              key_eq_iff k (last (t ∷ ts)),
              v.exact k j,
            );
          })
    | inr (old, hit) ↦
        rw (hit, forget_key)
          (record {
            sorted =
                insert-IsSorted (last (t ∷ ts), id) _
                  (remove-IsSorted (activity_key old, id) h.by_activity v.sorted);
            exact = λ k j. ground (
              arith,
              get-insert id j (t ∷ ts) h.by_identity,
              has-insert (last (t ∷ ts), id) (k, j) (remove (activity_key old, id) h.by_activity),
              has-remove (activity_key old, id) (k, j) h.by_activity,
              text_eq_iff id j,
              key_eq_iff (activity_key old) k,
              key_eq_iff k (activity_key old),
              key_eq_iff (last (t ∷ ts)) k,
              key_eq_iff k (last (t ∷ ts)),
              v.exact k j,
            );
          })
  ]

pub IsIndexed-empty : IsIndexed empty
unfolding has get
IsIndexed-empty = record { sorted = tt; exact = λ k id. refl }
