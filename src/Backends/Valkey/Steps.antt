-- ===== src/Backends/Valkey/Steps.antt =====
-- The steps of a sync (src/core/policy/store/valkey.rs, `sync`).
use mathlib.Core.List.{Perm}
use mathlib.Core.Path.{fun_ext}
use mathlib.Core.List.Perm
use protect.Backends.{Row, times_of, fresh, has_row, surviving, IsSync, IsAnswer}
use protect.Backends.Rows.{fresh-Perm}
use protect.Backends.Valkey.{
  Add, Commands, Reply, ValkeyStore, full_prefix, history_key, adds_of, add_events, connection,
  scan_loop, continue_scan, evict_all,
}
use protect.Backends.Valkey.Bounding.{
  get-evict_all, content-evict_all, ranked_by, excess, tracked_bounded, tracked_full,
  tracked_recent, tracked_ranked,
}
use protect.Backends.Valkey.Keys.{scores_of-adds_of}
use protect.Backends.Valkey.Laws.{scores, scores_of, contains, is_ok, IsNew, IsValkey}
use protect.Backends.Valkey.Seen.{IsUnique}
use protect.Backends.Valkey.Status.{IsSettled, ok_lem}
use protect.Backends.Valkey.Visiting.{IsSweep}
use protect.Core.Identity.{Identity}
use protect.Prelude.{
  ℕ, zero, suc, true, false, Option, some, List, [], ◌∷◌, ◌++◌, ◌≡◌, refl, sym, ap, ◌∙◌, subst,
  append-nil, text_equality, Bool-cases, inl, inr, get, nat_eq, ok, err, Text, take, drop,
}

-- What was there, with the new events, less what is stale.
pub gathered :
    (store : ValkeyStore) (seq : ℕ) (new_events : List Row) (cutoff : ℕ) (id : Identity)
    (start added scanned now : List ℕ)
    → scanned ≡ added
    → Perm added (start ++ scores_of (history_key store id) (adds_of store seq new_events))
    → Perm now (fresh cutoff scanned)
    → Perm now (fresh cutoff (start ++ times_of id new_events))
gathered store seq new_events cutoff id start added scanned now same p q = Perm.trans q (
    fresh-Perm cutoff (
      rw same
        (subst (λ ts. Perm added (start ++ ts)) (scores_of-adds_of store id seq new_events) p)))

module _ {S : Type 0} (commands : Commands S) (content : S → Text → List (Text × ℕ))
    (valkey : IsValkey commands content) where
  content-continue_scan :
      (go : ℕ → List Text → S → Option (Reply S (List Text))) (keys found : List Text)
      (reply : Reply S (ℕ × List Text)) (s : S) (k : Text)
      → ((cursor : ℕ) (keys : List Text) (s0 : S)
          → go cursor keys s0 ≡ some (ok found, s)
          → content s k ≡ content s0 k)
      → continue_scan commands go keys reply ≡ some (ok found, s)
      → content s k ≡ content reply.1 k
  content-continue_scan go keys found (err e, s1) s k h p = absurd (cc)
  content-continue_scan go keys found (ok (next, batch), s1) s k h p =
      elim (Bool-cases (nat_eq next 0)) [
        | inl done ↦
            let q = rw done at p in let same : s1 ≡ s = cc in ap (λ (x : S). content x k) (sym same)
        | inr more ↦ h next (keys ++ batch) s1 (rw more at p)
      ]

  pub content-scan_loop :
      (fuel : ℕ) (pattern : Text) (cursor : ℕ) (keys found : List Text) (s s' : S) (k : Text)
      → scan_loop commands fuel pattern cursor keys s ≡ some (ok found, s')
      → content s' k ≡ content s k
  unfolding scan_loop
  content-scan_loop zero pattern cursor keys found s s' k p = absurd (cc)
  content-scan_loop (suc fuel) pattern cursor keys found s s' k p =
      content-continue_scan (scan_loop commands fuel pattern) keys found
        (commands.scan cursor pattern s) s' k
        (λ c ks s0. content-scan_loop fuel pattern c ks found s0 s' k) p
      ∙ valkey.scanned cursor pattern s k

  pub connection_lem :
      (store : ValkeyStore) (s : S)
      → ((s : S) → is_ok (commands.connect s).0 ≡ true)
      → (u : Unit {0}) × (s' : S) × (connection commands store s ≡ (ok u, s'))
        × (content s' ≡ content s)
  unfolding connection
  connection_lem store s connects = elim (Bool-cases store.conn) [
    | inl cached ↦ (tt, s, rw cached refl, refl)
    | inr fresh_ ↦
        let (u, s', e) = ok_lem (commands.connect s) (connects s) in
        (
          u,
          s',
          rw fresh_ e,
          fun_ext (λ k.
              subst (λ (r : Reply S (Unit {0})). content r.1 k ≡ content s k) e
                (valkey.connected s k)),
        )
  ]

  pub add_events_lem :
      (adds : List Add) (s : S)
      → ((new : List Add) (s : S) → is_ok (commands.zadd_all new s).0 ≡ true)
      → IsNew (content s) adds
      → (u : Unit {0}) × (s' : S) × (add_events commands adds s ≡ (ok u, s'))
        × ((k : Text) → Perm (scores (content s' k)) (scores (content s k) ++ scores_of k adds))
  unfolding add_events scores_of
  add_events_lem [] s answers new =
      (tt, s, refl, λ k. rw (append-nil (scores (content s k))) (Perm.refl _))
  add_events_lem (a ∷ adds) s answers new =
      let (u, s', e) = ok_lem (commands.zadd_all (a ∷ adds) s) (answers (a ∷ adds) s) in
      (
        u,
        s',
        e,
        λ k.
            subst
              (λ (r : Reply S (Unit {0})).
                Perm (scores (content r.1 k)) (scores (content s k) ++ scores_of k (a ∷ adds)))
              e (valkey.added (a ∷ adds) s (answers (a ∷ adds) s) new k),
      )

  -- What a sweep of the whole keyspace makes of an identity.
  pub swept :
      (reads : (key : Text) (cutoff : ℕ) (s : S)
        → is_ok (commands.read_fresh key cutoff s).0 ≡ true)
      (deletes : (key : Text) (s : S) → is_ok (commands.del key s).0 ≡ true) (prefix : Text)
      (cutoff : ℕ) (keys : List Text) (rows : List (Identity × List ℕ)) (s s' : S)
      → IsSweep commands content valkey reads deletes prefix cutoff keys [] rows s s'
      → ((id : Identity) → contains (prefix ++ id) keys ≡ false → content s (prefix ++ id) ≡ [])
      → (id : Identity)
      → IsSettled cutoff
          (get id rows)
          (scores (content s (prefix ++ id)))
          (scores (content s' (prefix ++ id)))
  unfolding fresh get
  swept reads deletes prefix cutoff keys rows s s' sweep missing id =
      elim (Bool-cases (contains (prefix ++ id) keys)) [
        | inl member ↦ sweep.first id (scores (content s (prefix ++ id))) member (refl, refl)
        | inr other ↦
            let nothing = missing id other in
            let (entry, now) =
              sweep.never id (scores (content s (prefix ++ id))) other (refl, refl) in
            rw entry (rw now (rw nothing (refl, Perm.refl _)))
      ]

  -- What is left after the whole: a sync, of a server whose scan and sweep have ended.
  pub bounded-IsSync :
      (deletes : (key : Text) (s : S) → is_ok (commands.del key s).0 ≡ true)
      (iteration : List Row → List Row)
      (iteration-Perm : (rows : List Row) → Perm (iteration rows) rows) (store : ValkeyStore)
      (cutoff max_identities : ℕ) (new_events : List Row) (before : Identity → List ℕ)
      (rows : List (Identity × List ℕ)) (s : S)
      → IsUnique rows
      → ((id : Identity) → IsAnswer (get id rows) (scores (content s (full_prefix store ++ id))))
      → ((id : Identity)
          → Perm
              (scores (content s (full_prefix store ++ id)))
              (surviving cutoff before new_events id))
      → IsSync cutoff max_identities new_events before
          (λ id. scores (
            content
              (evict_all commands store
                (take (excess max_identities rows) (ranked_by iteration rows))
                rows
                s).1
              (full_prefix store ++ id)))
          (evict_all commands store
            (take (excess max_identities rows) (ranked_by iteration rows))
            rows
            s).0
  bounded-IsSync deletes iteration iteration-Perm store cutoff max_identities new_events before rows
        s unique answers now =
      let dropped = take (excess max_identities rows) (ranked_by iteration rows) in
      record {
        tracked = drop (excess max_identities rows) (ranked_by iteration rows);
        dropped = dropped;
        ranked = λ id.
            tracked_ranked iteration iteration-Perm max_identities rows id
              (scores (content s (full_prefix store ++ id))) (surviving cutoff before new_events id)
              unique (answers id) (now id);
        bounded = tracked_bounded iteration iteration-Perm max_identities rows;
        full = tracked_full iteration iteration-Perm max_identities rows;
        stalest = tracked_recent iteration iteration-Perm max_identities rows;
        kept = λ id.
            rw (content-evict_all commands content valkey deletes store id dropped rows s)
              (elim (Bool-cases (has_row id dropped)) [
                | inl gone ↦ rw gone (Perm.refl _)
                | inr stays ↦ rw stays (now id)
              ]);
        answered = λ id.
            rw
              (
                content-evict_all commands content valkey deletes store id dropped rows s,
                get-evict_all commands content valkey deletes store id dropped rows s,
              )
              (elim (Bool-cases (has_row id dropped)) [
                | inl gone ↦ rw gone refl
                | inr stays ↦ rw stays (answers id)
              ]);
      }
