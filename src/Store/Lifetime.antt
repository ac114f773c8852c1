-- ===== src/Store/Lifetime.antt =====
-- The history of a policy from its opening on, whatever its requests and its syncs are
-- (src/core/policy/threshold.rs).
use protect.Backends.{Row}
use protect.Core.Identity.{Identity}
use protect.History
use protect.History.{History, len, contains_key}
use protect.History.Covering.{set-IsCovered, evict_stalest_until-IsCovered}
use protect.History.Eviction.{IsCovered, len-evict_stalest_until}
use protect.Pool.{sort_by_key}
use protect.Settings.{StateDbConfig, sqlite, valkey}
use protect.Store.{
  Anchor, merged, known, merge_history_from_rows, rows_from, rows_into_history, row_instants,
  set_unless_empty, drain, fold,
}
use protect.Store.Opening.{
  Surroundings, Opened, warmed, open_by, open_sqlite_policy, open_valkey_policy, open_policy,
}
use protect.Threshold.{ThresholdConfig, ThresholdPolicy, evaluate}
use protect.Threshold.Account.{Request}
use protect.Threshold.Capacity.{IsSound, evaluate-IsSound}
use protect.Threshold.Entry.{evaluate-config}
use protect.Prelude.{
  ℕ, ◌≤◌, ◌≡◌, refl, sym, ◌∙◌, subst, max, Option, none, some, List, [], ◌∷◌, Result, ok, err, Text,
  get, text_equality, arith,
}

-- What happens to a policy: a request, and the two halves of a sync, between which requests may come.
pub data Happening : Type 0 where
  requested : Request → Happening
  drained : Anchor → Happening
  answered : Anchor → ℕ → Option (List (Identity × List ℕ)) → Happening

abbrev pub happen : ThresholdPolicy → Happening → ThresholdPolicy
happen p (requested r) = (evaluate p r.action r.ctx r.now).1
happen p (drained anchor) = (drain anchor p).1
happen p (answered anchor now rows) = fold anchor now rows p

unfoldable pub live : ThresholdPolicy → List Happening → ThresholdPolicy
live p [] = p
live p (h ∷ happenings) = live (happen p h) happenings

merge-IsCovered :
    (h : History) (a : Anchor) (rows : List (Identity × List ℕ)) (window now : ℕ)
    → IsCovered h
    → IsCovered (merge_history_from_rows h a rows window now)
unfolding merge_history_from_rows
merge-IsCovered h a [] window now c = c
merge-IsCovered h a ((id, ts) ∷ rows) window now c =
    let window' = merged a now window (known (get id h.by_identity)) ts in
    merge-IsCovered (History.set h id window') a rows window now (set-IsCovered h id window' c)

set_unless_empty-IsCovered :
    (h : History) (id : Identity) (ts : List ℕ) → IsCovered h → IsCovered (set_unless_empty h id ts)
set_unless_empty-IsCovered h id [] c = c
set_unless_empty-IsCovered h id (t ∷ ts) c = set-IsCovered h id (t ∷ ts) c

rows_from-IsCovered :
    (h : History) (a : Anchor) (rows : List (Identity × List ℕ)) (window now : ℕ)
    → IsCovered h
    → IsCovered (rows_from h a rows window now)
unfolding rows_from
rows_from-IsCovered h a [] window now c = c
rows_from-IsCovered h a ((id, ts) ∷ rows) window now c =
    let window' = sort_by_key (λ i. i) (row_instants a now window ts) in
    rows_from-IsCovered (set_unless_empty h id window') a rows window now
      (set_unless_empty-IsCovered h id window' c)

empty-IsCovered : IsCovered History.empty
unfolding contains_key get
empty-IsCovered = record { cover = λ id t. cc }

evicted-IsSound :
    (config : ThresholdConfig) (h : History)
    → IsCovered h
    → IsSound config (History.evict_stalest_until h config.max_tracked_identities)
evicted-IsSound config h c = record {
  covered = evict_stalest_until-IsCovered h config.max_tracked_identities c;
  bounded = omega (arith, len-evict_stalest_until h config.max_tracked_identities c);
}

empty-IsSound : (config : ThresholdConfig) → IsSound config History.empty
empty-IsSound config = record { covered = empty-IsCovered; bounded = omega arith }

-- Both halves of a sync.
drain-IsSound :
    (config : ThresholdConfig) (a : Anchor) (p : ThresholdPolicy)
    → IsSound config p.history
    → IsSound config (drain a p).1.history
unfolding drain
drain-IsSound config a p s = s

fold-IsSound :
    (a : Anchor) (now : ℕ) (rows : Option (List (Identity × List ℕ))) (p : ThresholdPolicy)
    → IsSound p.config p.history
    → IsSound p.config (fold a now rows p).history
unfolding fold
fold-IsSound a now none p s = s
fold-IsSound a now (some rows) p s =
    evicted-IsSound p.config (merge_history_from_rows p.history a rows p.config.window now)
      (merge-IsCovered p.history a rows p.config.window now s.covered)

happen-config : (p : ThresholdPolicy) (h : Happening) → (happen p h).config ≡ p.config
unfolding drain fold
happen-config p (requested r) = evaluate-config p r.action r.ctx r.now
happen-config p (drained a) = refl
happen-config p (answered a now none) = refl
happen-config p (answered a now (some rows)) = refl

happen-IsSound :
    (p : ThresholdPolicy) (h : Happening)
    → IsSound p.config p.history
    → IsSound p.config (happen p h).history
happen-IsSound p (requested r) s = evaluate-IsSound p r.action r.ctx r.now s
happen-IsSound p (drained a) s = drain-IsSound p.config a p s
happen-IsSound p (answered a now rows) s = fold-IsSound a now rows p s

live-IsSound :
    (config : ThresholdConfig) (p : ThresholdPolicy) (happenings : List Happening)
    → p.config ≡ config
    → IsSound config p.history
    → IsSound config (live p happenings).history
unfolding live
live-IsSound config p [] same s = s
live-IsSound config p (h ∷ happenings) same s =
    live-IsSound config (happen p h) happenings (happen-config p h ∙ same) (
      subst (λ (c : ThresholdConfig). IsSound c (happen p h).history) same
        (happen-IsSound p h (subst (λ (c : ThresholdConfig). IsSound c p.history) (sym same) s)))

module _ (s : Surroundings) (config : ThresholdConfig) where
  warmed-IsSound :
      (rows : Result (List (Identity × List ℕ)) Text) → IsSound config (warmed s config rows)
  unfolding rows_into_history
  warmed-IsSound (err e) = empty-IsSound config
  warmed-IsSound (ok rows) =
      evicted-IsSound config (rows_into_history s.anchor rows config.window s.now)
        (rows_from-IsCovered History.empty s.anchor rows config.window s.now empty-IsCovered)

  abbrev IsOpened : Opened → Type 0
  IsOpened o = (o.policy.config ≡ config) × IsSound config o.policy.history

  open_sqlite_policy-IsOpened :
      (r : Result (List Row) Text) → IsOpened (open_sqlite_policy s config r)
  open_sqlite_policy-IsOpened (err e) = (refl, empty-IsSound config)
  open_sqlite_policy-IsOpened (ok table) = (refl, warmed-IsSound _)

  open_valkey_policy-IsOpened :
      (url : Text) (failure : Option Text) → IsOpened (open_valkey_policy s config url failure)
  open_valkey_policy-IsOpened url none = (refl, empty-IsSound config)
  open_valkey_policy-IsOpened url (some e) = (refl, empty-IsSound config)

  open_by-IsOpened : (db : Option StateDbConfig) → IsOpened (open_by s config db)
  open_by-IsOpened none = (refl, empty-IsSound config)
  open_by-IsOpened (some (sqlite path)) = open_sqlite_policy-IsOpened (s.open_sqlite path)
  open_by-IsOpened (some (valkey v)) = open_valkey_policy-IsOpened v.url _

-- However a policy is opened, and whatever requests, syncs and answers of its store follow, in any order, its
-- history never holds more than `max_tracked_identities` callers, or one where that is 0.
pub history_bound :
    (s : Surroundings) (config : ThresholdConfig) (happenings : List Happening)
    → len (live (open_policy s config).policy happenings).history
      ≤ max 1 config.max_tracked_identities
unfolding open_policy
history_bound s config happenings =
    let (same, sound) = open_by-IsOpened s config config.state_db in
    (live-IsSound config (open_by s config config.state_db).policy happenings same sound).bounded
