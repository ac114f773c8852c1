-- ===== src/History/Covering.antt =====
-- Every operation of the history (src/core/policy/threshold.rs) keeps its identities in the index.
use protect.Core.Identity.{Identity}
use protect.History.ActivitySet.{
  Activity, key_eq, key_eq_iff, has, insert, remove, has-insert, has-remove,
}
use protect.History.{
  History, activity_key, ensure, ensure_entry, prune_stale, record_admitted, admit_entry, reindex,
  set, forget_key, prune_entry, drop_stale, evict_loop, evict_stalest_until, contains_key,
}
use protect.History.Eviction.{Entries, IsCovered}
use protect.Prelude
use protect.Prelude.{
  ℕ, suc, ◌-◌, ◌≤◌, ◌<◌, Bool, true, false, Option, none, some, List, [], ◌∷◌, ◌++◌, ◌≡◌, ◌≢◌, refl,
  sym, ◌⊎◌, inl, inr, ◌&&◌, ◌||◌, ap, length, last, replicate, get, ltb, leb, arith, text_equality,
  text_eq, text_eq_iff, get-insert, get-remove, Option-cases, Bool-cases, if◌then◌else◌, is_some,
  length-remove-le, length-remove-lt,
}

-- To index `id` anew covers it, and an identity whose elements are kept stays covered.
cover_insert :
    (id j : Identity) (a : Option ℕ) (s : List Activity)
    → (text_eq id j ≡ false → (k : Option ℕ) × (has (k, j) s ≡ true))
    → (k : Option ℕ) × (has (k, j) (insert (a, id) s) ≡ true)
cover_insert id j a s f = elim (Bool-cases (text_eq id j)) [
  | inl e ↦ (a, ground (arith, has-insert (a, id) (a, j) s, key_eq_iff a a))
  | inr n ↦ let (k, e) = f n in (k, ground (arith, has-insert (a, id) (k, j) s))
]

cover_remove :
    (id j : Identity) (a : Option ℕ) (s : List Activity)
    → text_eq id j ≡ false
    → ((k : Option ℕ) × (has (k, j) s ≡ true))
    → (k : Option ℕ) × (has (k, j) (remove (a, id) s) ≡ true)
cover_remove id j a s n (k, e) = (k, ground (arith, has-remove (a, id) (k, j) s))

cover_forget :
    (id j : Identity) (o : Option (List ℕ)) (s : List Activity)
    → text_eq id j ≡ false
    → ((k : Option ℕ) × (has (k, j) s ≡ true))
    → (k : Option ℕ) × (has (k, j) (forget_key id o s) ≡ true)
unfolding forget_key
cover_forget id j none s n c = c
cover_forget id j (some old) s n c = cover_remove id j (activity_key old) s n c

module _ (h : History) (id : Identity) where
  pub ensure-IsCovered : IsCovered h → IsCovered (ensure h id)
  unfolding ensure contains_key
  ensure-IsCovered v = elim (Option-cases (get id h.by_identity)) [
    | inl miss ↦
        rw (miss, ensure_entry)
          (record {
            cover = λ j t.
                cover_insert id j none h.by_activity
                  (λ n. v.cover j (ground (arith, get-insert id j [] h.by_identity)));
          })
    | inr (ts, hit) ↦ rw (hit, ensure_entry) v
  ]

  pub prune_stale-IsCovered :
      (now window : ℕ) → IsCovered h → IsCovered (prune_stale h id now window)
  unfolding prune_stale contains_key
  prune_stale-IsCovered now window v = elim (Option-cases (get id h.by_identity)) [
    | inl miss ↦ rw (miss, prune_entry) v
    | inr (ts, hit) ↦
        rw (hit, prune_entry)
          (record {
            cover = λ j t. v.cover j (
                ground (
                  arith,
                  get-insert id j (drop_stale now window ts) h.by_identity,
                  text_eq_iff id j,
                ));
          })
  ]

  pub record_admitted-IsCovered :
      (now count : ℕ) → IsCovered h → IsCovered (record_admitted h id now count)
  unfolding record_admitted contains_key
  record_admitted-IsCovered now count v = elim (Option-cases (get id h.by_identity)) [
    | inl miss ↦ rw (miss, admit_entry) v
    | inr (ts, hit) ↦ elim (Bool-cases (key_eq (activity_key ts) (some now))) [
      | inl same ↦
          rw (hit, admit_entry, same, reindex)
            (record {
              cover = λ j t. v.cover j (
                  ground (
                    arith,
                    get-insert id j (ts ++ replicate count now) h.by_identity,
                    text_eq_iff id j,
                  ));
            })
      | inr other ↦
          rw (hit, admit_entry, other, reindex)
            (record {
              cover = λ j t. cover_insert id j (some now) _ (λ n.
                  cover_remove id j (activity_key ts) h.by_activity n (
                    v.cover j
                      (ground (arith, get-insert id j (ts ++ replicate count now) h.by_identity))));
            })
    ]
  ]

  pub set-IsCovered : (ts : List ℕ) → IsCovered h → IsCovered (set h id ts)
  unfolding set contains_key
  set-IsCovered [] v = record {
    cover = λ j t.
        let n : text_eq id j ≡ false = ground (arith, get-remove id j h.by_identity) in
        cover_forget id j (get id h.by_identity) h.by_activity n
          (v.cover j (ground (arith, get-remove id j h.by_identity)));
  }
  set-IsCovered (u ∷ ts) v = record {
    cover = λ j t. cover_insert id j (last (u ∷ ts)) _ (λ n.
        cover_forget id j (get id h.by_identity) h.by_activity n
          (v.cover j (ground (arith, get-insert id j (u ∷ ts) h.by_identity))));
  }

evict_loop-IsCovered :
    (n : ℕ) (m : Entries) (s : List Activity)
    → IsCovered (record { by_identity = m; by_activity = s })
    → IsCovered (evict_loop n m s)
unfolding evict_loop contains_key has
evict_loop-IsCovered n m [] v = v
evict_loop-IsCovered n m ((k, id) ∷ s) v = elim (Bool-cases (ltb n (length m))) [
  | inl more ↦ rw more (
      evict_loop-IsCovered n (Prelude.remove id m) s (record {
        cover = λ j t.
            let (i, e) = v.cover j (ground (arith, get-remove id j m)) in
            (i, ground (arith, get-remove id j m, text_eq_iff id j));
      }))
  | inr done ↦ rw done v
]

pub evict_stalest_until-IsCovered :
    (h : History) (n : ℕ) → IsCovered h → IsCovered (evict_stalest_until h n)
unfolding evict_stalest_until
evict_stalest_until-IsCovered h n v = evict_loop-IsCovered n h.by_identity h.by_activity v
