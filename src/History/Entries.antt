-- ===== src/History/Entries.antt =====
-- What each operation of `History` (src/core/policy/threshold.rs) does to the windows.
use protect.Core.Identity.{Identity}
use protect.History.ActivitySet.{key_eq}
use protect.History.{
  History, activity_key, ensure, ensure_entry, drop_stale, prune_stale, prune_entry,
  record_admitted, admit_entry, reindex,
}
use protect.Prelude
use protect.Prelude.{
  ℕ, Option, none, some, List, [], ◌++◌, ◌≡◌, refl, inl, inr, get, arith, text_equality, text_eq,
  text_eq_iff, get-insert, Option-cases, if◌then◌else◌, replicate,
}

-- The window of an identity, where one that is not tracked has the empty window.
abbrev pub or_empty : Option (List ℕ) → List ℕ
or_empty none = []
or_empty (some ts) = ts

unfoldable pub entry : History → Identity → List ℕ
entry h id = or_empty (get id h.by_identity)

module _ (h : History) (id : Identity) where
  pub prune_stale_hit :
      (now window : ℕ) (ts : List ℕ)
      → get id h.by_identity ≡ some ts
      → prune_stale h id now window
        ≡ record h { by_identity = Prelude.insert id (drop_stale now window ts) h.by_identity }
  unfolding prune_stale
  prune_stale_hit now window ts hit = rw (hit, prune_entry)

  pub record_admitted_hit :
      (now count : ℕ) (ts : List ℕ)
      → get id h.by_identity ≡ some ts
      → record_admitted h id now count ≡ record {
        by_identity = Prelude.insert id (ts ++ replicate count now) h.by_identity;
        by_activity =
            reindex (key_eq (activity_key ts) (some now)) (activity_key ts) id now h.by_activity;
      }
  unfolding record_admitted
  record_admitted_hit now count ts hit = rw (hit, admit_entry)

  pub get-ensure :
      (j : Identity)
      → get j (ensure h id).by_identity
        ≡ (if text_eq id j then some (entry h id) else get j h.by_identity)
  unfolding ensure entry
  get-ensure j = elim (Option-cases (get id h.by_identity)) [
    | inl miss ↦ rw (miss, ensure_entry) (get-insert id j [] h.by_identity)
    | inr (ts, hit) ↦ rw (hit, ensure_entry) (ground (arith, text_eq_iff id j))
  ]

  pub get-prune_stale :
      (j : Identity) (now window : ℕ)
      → get j (prune_stale h id now window).by_identity ≡ (
          if text_eq id j
          then Prelude.map_option (drop_stale now window) (get id h.by_identity)
          else get j h.by_identity)
  unfolding prune_stale
  get-prune_stale j now window = elim (Option-cases (get id h.by_identity)) [
    | inl miss ↦ rw (miss, prune_entry) (ground (arith, text_eq_iff id j))
    | inr (ts, hit) ↦ rw (hit, prune_entry) (get-insert id j _ h.by_identity)
  ]

  pub get-record_admitted :
      (j : Identity) (now count : ℕ)
      → get j (record_admitted h id now count).by_identity ≡ (
          if text_eq id j
          then Prelude.map_option (λ ts. ts ++ replicate count now) (get id h.by_identity)
          else get j h.by_identity)
  unfolding record_admitted
  get-record_admitted j now count = elim (Option-cases (get id h.by_identity)) [
    | inl miss ↦ rw (miss, admit_entry) (ground (arith, text_eq_iff id j))
    | inr (ts, hit) ↦ rw (hit, admit_entry) (get-insert id j _ h.by_identity)
  ]
