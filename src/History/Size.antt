-- ===== src/History/Size.antt =====
-- How many identities are tracked after each operation of `History` (src/core/policy/threshold.rs).
use protect.Core.Identity.{Identity}
use protect.History.{
  History, ensure, ensure_entry, prune_stale, prune_entry, record_admitted, admit_entry, len,
  contains_key,
}
use protect.Prelude.{
  ℕ, suc, [], ◌≡◌, true, false, inl, inr, get, arith, text_equality, Option-cases,
  length-insert_old, length-insert_new,
}

module _ (h : History) (id : Identity) where
  pub len-ensure_old : contains_key h id ≡ true → ensure h id ≡ h
  unfolding ensure contains_key ensure_entry
  len-ensure_old t = ground arith

  pub len-ensure_new : contains_key h id ≡ false → len (ensure h id) ≡ suc (len h)
  unfolding ensure contains_key ensure_entry
  len-ensure_new t = ground (arith, length-insert_new id [] h.by_identity)

  pub len-prune_stale : (now window : ℕ) → len (prune_stale h id now window) ≡ len h
  unfolding prune_stale
  len-prune_stale now window = elim (Option-cases (get id h.by_identity)) [
    | inl miss ↦ rw (miss, prune_entry)
    | inr (ts, hit) ↦ rw (hit, prune_entry) (length-insert_old id _ h.by_identity (rw hit))
  ]

  pub len-record_admitted : (now count : ℕ) → len (record_admitted h id now count) ≡ len h
  unfolding record_admitted
  len-record_admitted now count = elim (Option-cases (get id h.by_identity)) [
    | inl miss ↦ rw (miss, admit_entry)
    | inr (ts, hit) ↦ rw (hit, admit_entry) (length-insert_old id _ h.by_identity (rw hit))
  ]
