-- ===== src/Threshold/Capacity.antt =====
-- The bound `max_tracked_identities` of src/core/policy/threshold.rs on the history of a policy.
use protect.Core.Action.{Action}
use protect.Core.Identity.{Identity}
use protect.History
use protect.History.{History, contains_key, len}
use protect.History.Covering.{
  ensure-IsCovered, prune_stale-IsCovered, record_admitted-IsCovered, evict_stalest_until-IsCovered,
}
use protect.History.Eviction.{IsCovered, contains_key-evict, len-evict_stalest_until}
use protect.History.Size.{len-ensure_old, len-ensure_new, len-prune_stale, len-record_admitted}
use protect.Policy.{PolicyContext}
use protect.Prelude.{
  ℕ, ◌-◌, ◌≤◌, false, List, [], ◌∷◌, ◌≡◌, inl, inr, refl, ltb, ◌∙◌, sym, subst, get, arith,
  text_equality, Bool-cases, max,
}
use protect.Threshold.{
  ThresholdConfig, ThresholdPolicy, make_room, refresh, evaluate, new, covers, exceeds_window,
  history_key,
}
use protect.Threshold.Entry.{
  evaluate_uncovered, evaluate_oversized, evaluate_full, evaluate_admitted, refreshed,
  evaluate-config,
}
use protect.Threshold.Account.{Request}

-- Room for at least the caller itself.
abbrev pub capacity : ThresholdConfig → ℕ
capacity config = max 1 config.max_tracked_identities

-- What every operation of a policy keeps.
pub record IsSound (config : ThresholdConfig) (h : History) : Type 0 where
  pub covered : IsCovered h
  pub bounded : len h ≤ capacity config

module _ (config : ThresholdConfig) (h : History) (key : Identity) where
  room_for_new :
      IsCovered h
      → contains_key h key ≡ false
      → len (History.ensure (History.evict_stalest_until h (config.max_tracked_identities - 1)) key)
        ≤ capacity config
  room_for_new v new =
      let h' = History.evict_stalest_until h (config.max_tracked_identities - 1) in
      omega (
        arith,
        len-ensure_new h' key (contains_key-evict h (config.max_tracked_identities - 1) key new),
        len-evict_stalest_until h (config.max_tracked_identities - 1) v,
      )

  refresh-IsSound : (now : ℕ) → IsSound config h → IsSound config (refresh config h key now)
  unfolding refresh make_room
  refresh-IsSound now s = elim (Bool-cases (contains_key h key)) [
    | inl old ↦
        rw (old, len-ensure_old)
          (record {
            covered = prune_stale-IsCovered h key now config.window s.covered;
            bounded = omega (arith, len-prune_stale h key now config.window, s.bounded);
          })
    | inr new ↦
        let h' = History.evict_stalest_until h (config.max_tracked_identities - 1) in
        rw new (record {
          covered = prune_stale-IsCovered (History.ensure h' key) key now config.window (
              ensure-IsCovered h' key
                (evict_stalest_until-IsCovered h (config.max_tracked_identities - 1) s.covered));
          bounded = omega (
            arith,
            len-prune_stale (History.ensure h' key) key now config.window,
            room_for_new s.covered new,
          );
        })
  ]

-- Every evaluation, whatever it decides, keeps the bound.
pub evaluate-IsSound :
    (p : ThresholdPolicy) (action : Action) (ctx : PolicyContext) (now : ℕ)
    → IsSound p.config p.history
    → IsSound p.config (evaluate p action ctx now).1.history
evaluate-IsSound p action ctx now s =
    elim (Bool-cases (covers p.config.operations action.operation)) [
      | inr skip ↦ rw (evaluate_uncovered p action ctx now skip) s
      | inl covered ↦ elim (Bool-cases (ltb p.config.max_per_request action.blast_radius)) [
        | inl big ↦ let (reason, e) = evaluate_oversized p action ctx now covered big in rw e s
        | inr small ↦
            let key = history_key p ctx in
            let h = refreshed p action ctx now in
            let fresh = refresh-IsSound p.config p.history key now s in
            elim (Bool-cases (exceeds_window p.config h key action.blast_radius)) [
              | inl full ↦
                  let (reason, e) = evaluate_full p action ctx now covered small full in rw e fresh
              | inr room ↦ rw (evaluate_admitted p action ctx now covered small room) (record {
                covered = record_admitted-IsCovered h key now action.blast_radius fresh.covered;
                bounded =
                    omega (arith, len-record_admitted h key now action.blast_radius, fresh.bounded);
              })
            ]
      ]
    ]

-- The policy after a run of requests.
unfoldable pub run : ThresholdPolicy → List Request → ThresholdPolicy
run p [] = p
run p (r ∷ rs) = run (evaluate p r.action r.ctx r.now).1 rs

run-IsSound :
    (config : ThresholdConfig) (p : ThresholdPolicy) (rs : List Request)
    → p.config ≡ config
    → IsSound config p.history
    → IsSound config (run p rs).history
unfolding run
run-IsSound config p [] same s = s
run-IsSound config p (r ∷ rs) same s =
    run-IsSound config (evaluate p r.action r.ctx r.now).1 rs
      (evaluate-config p r.action r.ctx r.now ∙ same)
      (subst (λ (c : ThresholdConfig). IsSound c (evaluate p r.action r.ctx r.now).1.history) same
        (evaluate-IsSound p r.action r.ctx r.now
          (subst (λ (c : ThresholdConfig). IsSound c p.history) (sym same) s)))

-- Whatever requests a policy is given, and at whatever times, its history never holds more than
-- `max_tracked_identities` callers, or one where that is 0.
pub tracked_bound :
    (config : ThresholdConfig) (rs : List Request)
    → len (run (new config) rs).history ≤ max 1 config.max_tracked_identities
unfolding contains_key get
tracked_bound config rs =
    (run-IsSound config (new config) rs refl
      (record { covered = record { cover = λ id t. cc }; bounded = omega arith })).bounded
