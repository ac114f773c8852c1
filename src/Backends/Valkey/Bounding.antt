-- ===== src/Backends/Valkey/Bounding.antt =====
-- The identities beyond the limit (src/core/policy/store/valkey.rs, `sync`).
use mathlib.Core.List.{Perm, perm_append_comm}
use mathlib.Core.List.Perm
use protect.Backends.{Row, times_of, has_row, last_seen, IsAnswer}
use protect.Backends.Rows.{times_of-Perm, Perm-last_seen, length-Perm}
use protect.Backends.Valkey.{
  Commands, ValkeyStore, history_key, full_prefix, evict_all, stalest, by_last_seen,
  bound_identities,
}
use protect.Backends.Valkey.Keys.{text_eq-append}
use protect.Backends.Valkey.Laws.{is_ok, IsValkey}
use protect.Backends.Valkey.Seen.{IsUnique, last_seen_lem, length-by_last_seen}
use protect.Core.Identity.{Identity}
use protect.Pool.{sort_by_key}
use protect.Pool.Order.{sort_by_key-Perm}
use protect.Pool.Tiers.{IsSortedBy, sort_by_key-IsSortedBy}
use protect.Prelude.{
  All-append_right, ℕ, zero, suc, ◌-◌, ◌≤◌, ◌<◌, true, none, List, [], ◌∷◌, ◌++◌, ◌≡◌, refl, ◌∙◌,
  subst, if◌then◌else◌, text_equality, arith, Bool-cases, inl, inr, get, remove, get-remove, length,
  take, drop, take-append-drop, ltb, ok, Text, All,
}

module _ {S : Type 0} (commands : Commands S) (content : S → Text → List (Text × ℕ))
    (valkey : IsValkey commands content)
    (deletes : (key : Text) (s : S) → is_ok (commands.del key s).0 ≡ true)
    (store : ValkeyStore) where
  pub get-evict_all :
      (id : Identity) (dropped : List Row) (rows : List (Identity × List ℕ)) (s : S)
      → get id (evict_all commands store dropped rows s).0
        ≡ (if has_row id dropped then none else get id rows)
  unfolding evict_all has_row
  get-evict_all id [] rows s = refl
  get-evict_all id ((j, t) ∷ dropped) rows s =
      get-evict_all id dropped (remove j rows) (commands.del (history_key store j) s).1
      ∙ ground (arith, get-remove j id rows)

  pub content-evict_all :
      (id : Identity) (dropped : List Row) (rows : List (Identity × List ℕ)) (s : S)
      → content (evict_all commands store dropped rows s).1 (full_prefix store ++ id)
        ≡ (if has_row id dropped then [] else content s (full_prefix store ++ id))
  unfolding evict_all has_row history_key
  content-evict_all id [] rows s = refl
  content-evict_all id ((j, t) ∷ dropped) rows s =
      let key = full_prefix store ++ j in
      content-evict_all id dropped (remove j rows) (commands.del key s).1
      ∙ ground (
        arith,
        valkey.deleted key s (deletes key s) (full_prefix store ++ id),
        text_eq-append (full_prefix store) j id,
      )

IsSortedBy-split :
    (xs ys : List Row)
    → IsSortedBy (λ (r : Row). r.1) (xs ++ ys)
    → All (λ (d : Row). All (λ (t : Row). d.1 ≤ t.1) ys) xs
IsSortedBy-split [] ys h = tt
IsSortedBy-split (x ∷ xs) ys h =
    (All-append_right (λ (t : Row). x.1 ≤ t.1) xs ys h.0, IsSortedBy-split xs ys h.1)

length-drop : (n : ℕ) (rows : List Row) → length (drop n rows) ≡ length rows - n
length-drop zero rows = omega arith
length-drop (suc n) [] = omega arith
length-drop (suc n) (r ∷ rows) = omega (arith, length-drop n rows)

length-take_positive : (n : ℕ) (rows : List Row) → 0 < length (take n rows) → 0 < n
length-take_positive zero rows h = absurd (omega arith)
length-take_positive (suc n) rows h = omega arith

-- The identities in the order of their last events, and how many are too many.
abbrev pub ranked_by : (List Row → List Row) → List (Identity × List ℕ) → List Row
ranked_by iteration rows = sort_by_key (λ (r : Row). r.1) (iteration (by_last_seen rows))

abbrev pub excess : ℕ → List (Identity × List ℕ) → ℕ
excess max_identities rows = length rows - max_identities

module _ (iteration : List Row → List Row)
    (iteration-Perm : (rows : List Row) → Perm (iteration rows) rows) (max_identities : ℕ)
    (rows : List (Identity × List ℕ)) where
  ranking-Perm : Perm (ranked_by iteration rows) (by_last_seen rows)
  ranking-Perm =
      Perm.trans (sort_by_key-Perm (λ (r : Row). r.1) (iteration (by_last_seen rows)))
        (iteration-Perm (by_last_seen rows))

  length-ranking : length (ranked_by iteration rows) ≡ length rows
  length-ranking = length-Perm ranking-Perm ∙ length-by_last_seen rows

  pub tracked_bounded :
      length (drop (excess max_identities rows) (ranked_by iteration rows)) ≤ max_identities
  tracked_bounded =
      omega
        (arith, length-drop (excess max_identities rows) (ranked_by iteration rows), length-ranking)

  pub tracked_full :
      0 < length (take (excess max_identities rows) (ranked_by iteration rows))
      → length (drop (excess max_identities rows) (ranked_by iteration rows)) ≡ max_identities
  tracked_full h = omega (
    arith,
    length-drop (excess max_identities rows) (ranked_by iteration rows),
    length-ranking,
    length-take_positive (excess max_identities rows) (ranked_by iteration rows) h,
  )

  pub tracked_recent :
      All
        (λ (d : Row).
          All
            (λ (t : Row). d.1 ≤ t.1)
            (drop (excess max_identities rows) (ranked_by iteration rows)))
        (take (excess max_identities rows) (ranked_by iteration rows))
  tracked_recent =
      IsSortedBy-split (take (excess max_identities rows) (ranked_by iteration rows))
        (drop (excess max_identities rows) (ranked_by iteration rows))
        (rw (take-append-drop (excess max_identities rows) (ranked_by iteration rows))
          (sort_by_key-IsSortedBy (λ (r : Row). r.1) (iteration (by_last_seen rows))))

  pub tracked_ranked :
      (id : Identity) (now start : List ℕ)
      → IsUnique rows
      → IsAnswer (get id rows) now
      → Perm now start
      → times_of id (
          drop (excess max_identities rows) (ranked_by iteration rows)
          ++ take (excess max_identities rows) (ranked_by iteration rows))
        ≡ last_seen start
  tracked_ranked id now start unique answer same =
      Perm-last_seen
        (times_of id (
          drop (excess max_identities rows) (ranked_by iteration rows)
          ++ take (excess max_identities rows) (ranked_by iteration rows)))
        start
        (subst
          (λ ts.
            Perm
              (times_of id (
                drop (excess max_identities rows) (ranked_by iteration rows)
                ++ take (excess max_identities rows) (ranked_by iteration rows)))
              ts)
          (unique id ∙ last_seen_lem (get id rows) now start answer same)
          (times_of-Perm id (
            Perm.trans
              (perm_append_comm (drop (excess max_identities rows) (ranked_by iteration rows))
                (take (excess max_identities rows) (ranked_by iteration rows)))
              (rw (take-append-drop (excess max_identities rows) (ranked_by iteration rows))
                ranking-Perm))))

  -- With no (excess max_identities rows), nothing is deleted.
  pub bound_identities_lem :
      {S : Type 0} (commands : Commands S) (store : ValkeyStore) (s : S)
      → bound_identities commands iteration store max_identities rows s ≡ (
        ok
            (evict_all commands store
              (take (excess max_identities rows) (ranked_by iteration rows))
              rows
              s).0,
        (evict_all commands store
            (take (excess max_identities rows) (ranked_by iteration rows))
            rows
            s).1,
      )
  unfolding bound_identities stalest evict_all
  bound_identities_lem commands store s = elim (Bool-cases (ltb max_identities (length rows))) [
    | inl over ↦ rw over refl
    | inr within ↦
        let none_ : length rows - max_identities ≡ 0 = ground arith in rw (within, none_) refl
  ]
