-- ===== src/Backends/Valkey/Syncing.antt =====
-- What a sync of the Valkey store does (src/core/policy/store/valkey.rs, `sync`).
use mathlib.Core.List.{Perm}
use protect.Backends.{Row, IsSync}
use protect.Backends.Valkey.{
  Commands, Reply, ValkeyStore, full_prefix, history_key, adds_of, evict_all, read_back, numbered,
  sync,
}
use protect.Backends.Valkey.Bounding.{ranked_by, excess, bound_identities_lem}
use protect.Backends.Valkey.Laws.{scores, scores_of, IsNew, IsPlain, IsValkey, IsResponsive}
use protect.Backends.Valkey.Seen.{nil-IsUnique}
use protect.Backends.Valkey.Visiting.{visit_all-IsSweep}
use protect.Backends.Valkey.Steps.{
  gathered, content-scan_loop, connection_lem, add_events_lem, swept, bounded-IsSync,
}
use protect.Core.Identity.{Identity}
use protect.Prelude.{
  ℕ, some, List, [], ◌++◌, ◌≡◌, ap, ◌∙◌, subst, text_equality, ok, Text, codes, take,
}

module _ {S : Type 0} (commands : Commands S) (content : S → Text → List (Text × ℕ))
    (valkey : IsValkey commands content) where
  -- The store refines the specification of a sync that deletes what is before the cutoff (and, unlike the doc
  -- of the trait, keeps an event exactly at it): if every command is answered, a scan ends within the fuel,
  -- the prefix has no character that is special in a pattern, and the members that it makes are new, then a
  -- sync ends, and is a sync of what the server has for each identity, in whatever order the map is iterated
  -- over.
  pub sync-IsSync :
      (iteration : List Row → List Row)
      (iteration-Perm : (rows : List Row) → Perm (iteration rows) rows) (fuel : ℕ)
      (store : ValkeyStore) (new_events : List Row) (cutoff max_identities : ℕ) (s : S)
      → IsResponsive commands fuel (full_prefix store ++ codes "*")
      → IsPlain (full_prefix store)
      → IsNew (content s) (adds_of store store.member_seq new_events)
      → (answer : List (Identity × List ℕ)) × (s' : S) × (sync commands iteration fuel store
            new_events cutoff max_identities s
          ≡ some ((ok answer, s'), numbered store new_events))
        × IsSync cutoff max_identities new_events
            (λ id. scores (content s (history_key store id)))
            (λ id. scores (content s' (history_key store id)))
            answer
  unfolding sync read_back numbered full_prefix history_key
  sync-IsSync iteration iteration-Perm fuel store new_events cutoff max_identities s live plain
        new =
      let adds = adds_of store store.member_seq new_events in
      let (u1, s1, e1, same1) = connection_lem commands content valkey store s live.connects in
      let (u2, s2, e2, added) =
        add_events_lem commands content valkey adds s1 live.adds (rw same1 new) in
      let (keys, s3, e3) = live.scans s2 in
      let (rows, s4, e4, sweep) =
        visit_all-IsSweep commands content valkey live.reads live.deletes (full_prefix store) cutoff
          keys [] s3 in
      let settled =
        swept commands content valkey live.reads live.deletes (full_prefix store) cutoff keys rows
          s3 s4 sweep
          (λ id h.
            content-scan_loop commands content valkey fuel (full_prefix store ++ codes "*") 0 []
              keys s2 s3 (full_prefix store ++ id) e3
            ∙ valkey.complete fuel (full_prefix store) s2 s3 keys plain e3 id h) in
      let dropped = take (excess max_identities rows) (ranked_by iteration rows) in
      (
        (evict_all commands (numbered store new_events) dropped rows s4).0,
        (evict_all commands (numbered store new_events) dropped rows s4).1,
        rw e1 (
            rw e2 (
              rw e3 (
                rw e4 (
                  ap
                    (λ (r : Reply S (List (Identity × List ℕ))).
                      some (r, numbered store new_events))
                    (bound_identities_lem iteration iteration-Perm max_identities rows commands
                      (numbered store new_events) s4))))),
        bounded-IsSync commands content valkey live.deletes iteration iteration-Perm
            (numbered store new_events) cutoff max_identities new_events
            (λ id. scores (content s (history_key store id))) rows s4 (sweep.unique nil-IsUnique)
            (λ id. (settled id).0)
            (λ id.
              let key = history_key store id in
              gathered store store.member_seq new_events cutoff id (scores (content s key))
                (scores (content s2 key)) (scores (content s3 key)) (scores (content s4 key))
                (ap scores (
                  content-scan_loop commands content valkey fuel (full_prefix store ++ codes "*") 0
                    [] keys s2 s3 key e3))
                (subst
                  (λ (c : Text → List (Text × ℕ)).
                    Perm (scores (content s2 key)) (scores (c key) ++ scores_of key adds))
                  same1 (added key))
                (settled id).1),
      )
