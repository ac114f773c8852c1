-- ===== src/Backends/Sqlite/Ranking.antt =====
-- What the deletions of a sync leave (src/core/policy/store/sqlite.rs, `blocking_sync`).
use protect.Backends.{Row, times_of, fresh, latest, last_seen, has_row}
use protect.Backends.Rows.{times_of-nil, times_of-append, times_of-cons, times_of-insert, to_list}
use protect.Backends.Sqlite.{insert_all, delete_stale, delete_identities, group_by_identity, later}
use protect.Core.Identity.{Identity}
use protect.Prelude.{
  ℕ, Option, none, some, List, [], ◌∷◌, ◌++◌, ◌≡◌, sym, ap, get-insert, get, text_eq_iff, ◌∙◌,
  text_equality, if◌then◌else◌, arith, append_assoc, append-nil,
}

pub times_of-insert_all :
    (id : Identity) (table new_events : List Row)
    → times_of id (insert_all table new_events) ≡ times_of id table ++ times_of id new_events
unfolding insert_all
times_of-insert_all id table [] = rw (times_of-nil id) (sym (append-nil (times_of id table)))
times_of-insert_all id table ((j, t) ∷ es) =
    times_of-insert_all id (table ++ ((j, t) ∷ [])) es
    ∙ rw (times_of-append id table ((j, t) ∷ [])) (
        append_assoc (times_of id table) (times_of id ((j, t) ∷ [])) (times_of id es)
        ∙ ap (λ ts. times_of id table ++ ts) (sym (times_of-append id ((j, t) ∷ []) es)))

pub times_of-delete_stale :
    (id : Identity) (cutoff : ℕ) (rows : List Row)
    → times_of id (delete_stale cutoff rows) ≡ fresh cutoff (times_of id rows)
unfolding delete_stale fresh
times_of-delete_stale id cutoff [] = ground (arith, times_of-nil id)
times_of-delete_stale id cutoff ((j, t) ∷ rows) = ground (
  arith,
  times_of-cons id j t rows,
  times_of-cons id j t (delete_stale cutoff rows),
  times_of-delete_stale id cutoff rows,
)

pub times_of-delete_identities :
    (id : Identity) (dropped rows : List Row)
    → times_of id (delete_identities dropped rows)
      ≡ (if has_row id dropped then [] else times_of id rows)
unfolding delete_identities
times_of-delete_identities id dropped [] = ground (arith, times_of-nil id)
times_of-delete_identities id dropped ((j, t) ∷ rows) = ground (
  arith,
  text_equality.beq_iff j id,
  times_of-cons id j t rows,
  times_of-cons id j t (delete_identities dropped rows),
  times_of-delete_identities id dropped rows,
)

group_by_identity_lem :
    (id : Identity) (rows : List Row)
    → times_of id (group_by_identity rows) ≡ to_list (get id (group_by_identity rows))
unfolding group_by_identity get
group_by_identity_lem id [] = times_of-nil id
group_by_identity_lem id ((j, t) ∷ rows) =
    let groups = group_by_identity rows in
    let t' = later t (get j groups) in
    rw (times_of-insert id j t' groups (group_by_identity_lem j rows))
      (rw (get-insert j id t' groups) (ground (arith, group_by_identity_lem id rows)))

later_lem :
    (t : ℕ) (o : Option ℕ) (ts : List ℕ)
    → to_list o ≡ last_seen ts
    → later t o ∷ [] ≡ last_seen (t ∷ ts)
unfolding latest
later_lem t none [] h = ground arith
later_lem t none (s ∷ ts) h = absurd (cc)
later_lem t (some s) [] h = absurd (cc)
later_lem t (some s) (r ∷ ts) h = ground arith

-- Each identity is ranked once, by its last event.
pub times_of-group_by_identity :
    (id : Identity) (rows : List Row)
    → times_of id (group_by_identity rows) ≡ last_seen (times_of id rows)
unfolding group_by_identity latest
times_of-group_by_identity id [] = ground (arith, times_of-nil id)
times_of-group_by_identity id ((j, t) ∷ rows) =
    let groups = group_by_identity rows in
    let same : to_list (get id groups) ≡ last_seen (times_of id rows) =
      sym (group_by_identity_lem id rows) ∙ times_of-group_by_identity id rows in
    rw
      (
        times_of-insert id j (later t (get j groups)) groups (group_by_identity_lem j rows),
        times_of-cons id j t rows,
      )
      (ground (
        arith,
        text_eq_iff j id,
        times_of-group_by_identity id rows,
        later_lem t (get id groups) (times_of id rows) same,
      ))
