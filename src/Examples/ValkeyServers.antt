-- ===== src/Examples/ValkeyServers.antt =====
-- A server that keeps one list of members for all keys, and a sync with it.
use mathlib.Core.List.{Perm}
use mathlib.Core.List.Perm
use protect.Backends.{Row, fresh, IsSync}
use protect.Backends.Valkey.{
  Add, Commands, ValkeyStore, history_key, full_prefix, adds_of, member_of, signed, scan_loop,
  numbered, sync,
}
use protect.Backends.Valkey.Laws.{scores, scores_of, contains, IsNew, IsValkey, IsResponsive}
use protect.Backends.Valkey.Syncing.{sync-IsSync}
use protect.Core.Identity.{Identity}
use protect.Examples.ThresholdRuns
use protect.Pool.{sort_by_key}
use protect.Pool.Order.{sort_by_key-Perm}
use protect.Pool.Tiers.{IsSortedBy, sort_by_key-IsSortedBy}
use protect.Prelude.{
  ℕ, zero, suc, ◌≤◌, false, some, List, [], ◌∷◌, ◌++◌, ◌≡◌, refl, sym, ◌==◌, text_eq_iff, map,
  if◌then◌else◌, text_equality, arith, length, ltb, ok, Text, codes, All,
}

abbrev members_of : List Add → Text → List (Text × ℕ)
members_of [] key = []
members_of (a ∷ s) key =
    let rest = members_of s key in if a.key == key then (a.member, a.score) ∷ rest else rest

abbrev without : Text → List Add → List Add
without key [] = []
without key (a ∷ s) = let rest = without key s in if a.key == key then rest else a ∷ rest

abbrev pruned : Text → ℕ → List Add → List Add
pruned key cutoff [] = []
pruned key cutoff (a ∷ s) =
    let rest = pruned key cutoff s in
    if a.key == key then (if ltb a.score cutoff then rest else a ∷ rest) else a ∷ rest

abbrev by_score : List (Text × ℕ) → List (Text × ℕ)
by_score members = sort_by_key (λ (m : Text × ℕ). m.1) members

abbrev server : Commands (List Add)
server = record {
  connect = λ s. (ok tt, s);
  zadd_all = λ adds s. (ok tt, s ++ adds);
  scan = λ cursor pattern s. (ok (0, map (λ (a : Add). a.key) s), s);
  read_fresh = λ key cutoff s.
      let s' = pruned key cutoff s in
      (ok (by_score (members_of s' key), length (by_score (members_of s' key))), s');
  del = λ key s. (ok 1, without key s);
}

scores-append :
    (s adds : List Add) (key : Text)
    → scores (members_of (s ++ adds) key) ≡ scores (members_of s key) ++ scores_of key adds
unfolding scores_of
scores-append [] [] key = refl
scores-append [] (a ∷ adds) key = ground (arith, scores-append [] adds key)
scores-append (a ∷ s) adds key = ground (arith, scores-append s adds key)

members_of-nil :
    (s : List Add) (key : Text)
    → contains key (map (λ (a : Add). a.key) s) ≡ false
    → members_of s key ≡ []
members_of-nil [] key h = refl
members_of-nil (a ∷ s) key h = ground (arith, members_of-nil s key)

scores-pruned :
    (key : Text) (cutoff : ℕ) (s : List Add)
    → scores (members_of (pruned key cutoff s) key) ≡ fresh cutoff (scores (members_of s key))
unfolding fresh
scores-pruned key cutoff [] = refl
scores-pruned key cutoff (a ∷ s) = ground (arith, scores-pruned key cutoff s)

members_of-pruned :
    (key : Text) (cutoff : ℕ) (s : List Add) (k : Text)
    → (key == k) ≡ false
    → members_of (pruned key cutoff s) k ≡ members_of s k
members_of-pruned key cutoff [] k h = refl
members_of-pruned key cutoff (a ∷ s) k h = ground (
  arith,
  text_eq_iff a.key key,
  text_eq_iff a.key k,
  text_eq_iff key k,
  members_of-pruned key cutoff s k,
)

members_of-without :
    (key : Text) (s : List Add) (k : Text)
    → members_of (without key s) k ≡ (if key == k then [] else members_of s k)
members_of-without key [] k = ground arith
members_of-without key (a ∷ s) k = ground (
  arith,
  text_eq_iff a.key key,
  text_eq_iff a.key k,
  text_eq_iff key k,
  members_of-without key s k,
)

All-scores :
    (t : ℕ) (ms : List (Text × ℕ))
    → All (λ (m : Text × ℕ). t ≤ m.1) ms
    → All (λ u. t ≤ u) (scores ms)
All-scores t [] all = tt
All-scores t (m ∷ ms) all = (all.0, All-scores t ms all.1)

scores-IsSortedBy :
    (ms : List (Text × ℕ)) → IsSortedBy (λ (m : Text × ℕ). m.1) ms → IsSortedBy (λ t. t) (scores ms)
scores-IsSortedBy [] h = tt
scores-IsSortedBy (m ∷ ms) h = (All-scores m.1 ms h.0, scores-IsSortedBy ms h.1)

complete_lem :
    (fuel : ℕ) (prefix : Text) (s s' : List Add) (keys : List Text)
    → scan_loop server fuel (prefix ++ codes "*") 0 [] s ≡ some (ok keys, s')
    → (rest : Text) → contains (prefix ++ rest) keys ≡ false
    → members_of s (prefix ++ rest) ≡ []
unfolding scan_loop
complete_lem zero prefix s s' keys e rest h = absurd (cc)
complete_lem (suc fuel) prefix s s' keys e rest h =
    let same : map (λ (a : Add). a.key) s ≡ keys = cc in
    members_of-nil s (prefix ++ rest) (rw same h)

read_lem :
    (key : Text) (cutoff : ℕ) (s s' : List Add) (members : List (Text × ℕ)) (count : ℕ)
    → server.read_fresh key cutoff s ≡ (ok (members, count), s')
    → Perm (scores (members_of s' key)) (fresh cutoff (scores (members_of s key)))
      × Perm (scores members) (scores (members_of s' key))
      × IsSortedBy (λ t. t) (scores members)
      × (count ≡ length members)
read_lem key cutoff s s' members count e =
    let same : pruned key cutoff s ≡ s' = cc in
    let read : by_score (members_of (pruned key cutoff s) key) ≡ members = cc in
    let counted : length (by_score (members_of (pruned key cutoff s) key)) ≡ count = cc in
    rw (sym same, sym counted, sym read)
      (
        rw (scores-pruned key cutoff s) (Perm.refl _),
        Perm.map (λ (m : Text × ℕ). m.1)
            (sort_by_key-Perm (λ (m : Text × ℕ). m.1) (members_of (pruned key cutoff s) key)),
        scores-IsSortedBy (by_score (members_of (pruned key cutoff s) key))
            (sort_by_key-IsSortedBy (λ (m : Text × ℕ). m.1) (members_of (pruned key cutoff s) key)),
        refl,
      )

server-IsValkey : IsValkey server members_of
server-IsValkey = record {
  connected = λ s k. refl;
  added = λ adds s answered new k. rw (scores-append s adds k) (Perm.refl _);
  scanned = λ cursor pattern s k. refl;
  complete = λ fuel prefix s s' keys plain e rest h. complete_lem fuel prefix s s' keys e rest h;
  read = read_lem;
  untouched = members_of-pruned;
  deleted = λ key s answered k. members_of-without key s k;
}

server-IsResponsive : (pattern : Text) → IsResponsive server 1 pattern
unfolding scan_loop
server-IsResponsive pattern = record {
  connects = λ s. refl;
  adds = λ new s. refl;
  reads = λ key cutoff s. refl;
  deletes = λ key s. refl;
  scans = λ s. (map (λ (a : Add). a.key) s, s, refl);
}

abbrev store : ValkeyStore
store = record { key_prefix = codes "p"; conn = false; member_seq = 0 }

-- What another instance has written.
abbrev shared : List Add
shared =
    record { key = history_key store (codes "alice"); member = member_of 1 7; score = 1 }
    ∷ record { key = history_key store (codes "bob"); member = member_of 5 8; score = 5 }
    ∷ []

abbrev new_events : List Row
new_events = (codes "carol", 7) ∷ (codes "carol", 7) ∷ []

program : Unit {0}
unfolding ThresholdRuns.program member_of signed adds_of full_prefix history_key
program = tt

new_events-IsNew : IsNew (members_of shared) (adds_of store 0 new_events)
unfolding program
new_events-IsNew = (refl, ((λ same twice. ground arith), tt), (refl, tt, tt))

sync-IsSync_example :
    (answer : List (Identity × List ℕ)) × (s' : List Add) × (sync server
        (λ rows. rows)
        1
        store
        new_events
        2
        1
        shared
      ≡ some ((ok answer, s'), numbered store new_events))
    × IsSync 2 1 new_events
        (λ id. scores (members_of shared (history_key store id)))
        (λ id. scores (members_of s' (history_key store id)))
        answer
unfolding full_prefix
sync-IsSync_example =
    sync-IsSync server members_of server-IsValkey (λ rows. rows) (λ rows. Perm.refl rows) 1 store
      new_events 2 1 shared (server-IsResponsive (full_prefix store ++ codes "*"))
      ((refl, (refl, (refl, (refl, (refl, (refl, (refl, (refl, (refl, (refl, tt)))))))))))
      new_events-IsNew
