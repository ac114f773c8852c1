-- ===== src/Threshold/Entry.antt =====
-- What an evaluation does to the window of the caller (src/core/policy/threshold.rs, `evaluate`).
use protect.Core.Action.{Action}
use protect.Core.Identity.{Identity}
use protect.History
use protect.History.{History, contains_key, window_len, drop_stale, evict_stalest_until, len, empty}
use protect.History.Entries.{entry, get-ensure, get-prune_stale, get-record_admitted}
use protect.History.Eviction.{evict_gone, evict_stalest_until_idle}
use protect.Policy.{allow, block, PolicyContext}
use protect.Prelude.{
  ℕ, Text, ◌-◌, ◌<◌, true, false, some, ◌++◌, ◌≡◌, inl, inr, arith, get, text_equality, text_eq,
  text_eq_iff, ltb, length, replicate, Option-cases,
}
use protect.Threshold.{
  ThresholdConfig, ThresholdPolicy, make_room, refresh, decide, evaluate, covers, exceeds_window,
  history_key, request_reason, window_reason, queue_all,
}

module _ (config : ThresholdConfig) (h : History) (key : Identity) where
  -- Making room evicts others only: the window of `key` is what it was.
  entry-make_room : entry (make_room config h key) key ≡ entry h key
  unfolding make_room contains_key entry
  entry-make_room = elim (Option-cases (get key h.by_identity)) [
    | inl miss ↦
        rw (miss) (ground (arith, evict_gone h (config.max_tracked_identities - 1) key miss))
    | inr (ts, hit) ↦ ground arith
  ]

  pub make_room_idle : len h < config.max_tracked_identities → make_room config h key ≡ h
  unfolding make_room
  make_room_idle few =
      ground (arith, evict_stalest_until_idle h (config.max_tracked_identities - 1) (omega arith))

  pub get-refresh :
      (now : ℕ)
      → get key (refresh config h key now).by_identity
        ≡ some (drop_stale now config.window (entry h key))
  unfolding refresh
  get-refresh now =
      let room = make_room config h key in
      ground (
        arith,
        get-prune_stale (History.ensure room key) key key now config.window,
        get-ensure room key key,
        text_eq_iff key key,
        entry-make_room,
      )

  pub get-refresh_ne :
      (j : Identity) (now : ℕ)
      → text_eq key j ≡ false
      → get j (refresh config h key now).by_identity ≡ get j (make_room config h key).by_identity
  unfolding refresh
  get-refresh_ne j now ne =
      let room = make_room config h key in
      ground (
        arith,
        get-prune_stale (History.ensure room key) key j now config.window,
        get-ensure room key j,
      )

  pub entry-refresh :
      (now : ℕ) → entry (refresh config h key now) key ≡ drop_stale now config.window (entry h key)
  unfolding entry
  entry-refresh now = rw (get-refresh now)

  pub entry-refresh_ne :
      (j : Identity) (now : ℕ)
      → text_eq key j ≡ false
      → make_room config h key ≡ h
      → entry (refresh config h key now) j ≡ entry h j
  unfolding entry
  entry-refresh_ne j now ne kept = rw (get-refresh_ne j now ne, kept)

  pub window_len-refresh :
      (now : ℕ)
      → window_len (refresh config h key now) key
        ≡ length (drop_stale now config.window (entry h key))
  unfolding window_len
  window_len-refresh now = rw (get-refresh now)

  pub entry-admit :
      (now count : ℕ)
      → entry (History.record_admitted (refresh config h key now) key now count) key
        ≡ drop_stale now config.window (entry h key) ++ replicate count now
  unfolding entry
  entry-admit now count =
      rw (get-record_admitted (refresh config h key now) key key now count, get-refresh now)
        (ground (arith, text_eq_iff key key))

  pub entry-admit_ne :
      (j : Identity) (now count : ℕ)
      → text_eq key j ≡ false
      → entry (History.record_admitted (refresh config h key now) key now count) j
        ≡ entry (refresh config h key now) j
  unfolding entry
  entry-admit_ne j now count ne =
      rw (get-record_admitted (refresh config h key now) key j now count, ne)

-- The four ways of an evaluation.
module _ (p : ThresholdPolicy) (action : Action) (ctx : PolicyContext) (now : ℕ) where
  pub evaluate_uncovered :
      covers p.config.operations action.operation ≡ false → evaluate p action ctx now ≡ (allow, p)
  unfolding evaluate
  evaluate_uncovered h = rw h

  pub evaluate_oversized :
      covers p.config.operations action.operation ≡ true
      → ltb p.config.max_per_request action.blast_radius ≡ true
      → (reason : Text) × (evaluate p action ctx now ≡ (block reason, p))
  unfolding evaluate
  evaluate_oversized h big =
      (request_reason action.blast_radius p.config.max_per_request, rw (h, big))

  abbrev pub refreshed : History
  refreshed = refresh p.config p.history (history_key p ctx) now

  pub evaluate_full :
      covers p.config.operations action.operation ≡ true
      → ltb p.config.max_per_request action.blast_radius ≡ false
      → exceeds_window p.config refreshed (history_key p ctx) action.blast_radius ≡ true
      → (reason : Text) × (evaluate p action ctx now
          ≡ (block reason, record p { history = refreshed }))
  unfolding evaluate decide
  evaluate_full h small full =
      (window_reason (window_len refreshed (history_key p ctx)) p.config, rw (h, small, full))

  pub evaluate_admitted :
      covers p.config.operations action.operation ≡ true
      → ltb p.config.max_per_request action.blast_radius ≡ false
      → exceeds_window p.config refreshed (history_key p ctx) action.blast_radius ≡ false
      → evaluate p action ctx now ≡ (
        allow,
        record p {
          history = History.record_admitted refreshed (history_key p ctx) now action.blast_radius;
          state = queue_all (history_key p ctx) now action.blast_radius p.state;
        },
      )
  unfolding evaluate decide
  evaluate_admitted h small fits = rw (h, small, fits)

pub evaluate-config :
    (p : ThresholdPolicy) (action : Action) (ctx : PolicyContext) (now : ℕ)
    → (evaluate p action ctx now).1.config ≡ p.config
unfolding evaluate decide
evaluate-config p action ctx now = ground arith
