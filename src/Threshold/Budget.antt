-- ===== src/Threshold/Budget.antt =====
-- The promise of `ThresholdPolicy` (src/core/policy/threshold.rs, `ThresholdConfig::max_per_window`):
-- in no window of time does a caller get more admitted than the budget.
use protect.Core.Identity.{Identity}
use protect.History.Entries.{entry}
use protect.Prelude.{
  ℕ, ◌+◌, ◌≤◌, ◌<◌, true, List, [], ◌∷◌, ◌++◌, ◌≡◌, refl, ◌⊎◌, inl, inr, arith, get, text_equality,
  text_eq, text_eq_iff, append-nil, append_assoc, ap, sym, subst, ◌∙◌,
}
use protect.Threshold.{
  ThresholdConfig, ThresholdPolicy, global, global_history_key, make_room, evaluate, usize_mod,
  history_key, new,
}
use protect.Threshold.Entry.{evaluate-config, make_room_idle}
use protect.Threshold.Sliding.{within, IsBounded, IsBounded-empty}
use protect.Threshold.Account.{Request, charge, account, IsTimeline, never_full, Within, step}

-- Why no request of a run evicts the window of `key`: the history is never full, or there is but one
-- key.
abbrev Kept : ThresholdConfig → Identity → ThresholdPolicy → List Request → Type 0
Kept config key p rs =
    (never_full p rs ≡ true) ⊎ (config.scope ≡ global) × (key ≡ global_history_key)

Kept-now :
    (config : ThresholdConfig) (key : Identity) (p : ThresholdPolicy) (r : Request)
    (rs : List Request)
    → p.config ≡ config
    → Kept config key p (r ∷ rs)
    → (text_eq (history_key p r.ctx) key ≡ true)
      ⊎ (make_room p.config p.history (history_key p r.ctx) ≡ p.history)
unfolding never_full
Kept-now config key p r rs same (inl few) =
    inr (make_room_idle p.config p.history (history_key p r.ctx) (ground arith))
Kept-now config key p r rs same (inr (scope, e)) =
    let s : p.config.scope ≡ global = ap (λ (c : ThresholdConfig). c.scope) same ∙ scope in
    inl (rw (s, e) ((text_eq_iff global_history_key global_history_key).1 refl))

Kept-later :
    (config : ThresholdConfig) (key : Identity) (p : ThresholdPolicy) (r : Request)
    (rs : List Request)
    → Kept config key p (r ∷ rs)
    → Kept config key (evaluate p r.action r.ctx r.now).1 rs
unfolding never_full
Kept-later config key p r rs (inl few) = inl (ground arith)
Kept-later config key p r rs (inr one) = inr one

-- The account over a run, from one that is within the budget.
run-IsBounded :
    (config : ThresholdConfig) (key : Identity) (p : ThresholdPolicy) (rs : List Request) (last : ℕ)
    (log : List ℕ)
    → p.config ≡ config
    → IsTimeline last rs
    → Kept config key p rs
    → config.max_per_window + config.max_per_request < usize_mod
    → IsBounded config.max_per_window config.window last log (entry p.history key)
    → (lo : ℕ) → within lo (lo + config.window) (log ++ account key p rs) ≤ config.max_per_window
unfolding account
run-IsBounded config key p [] last log same t kept fits w lo = rw append-nil (w.bound lo)
run-IsBounded config key p (r ∷ rs) last log same t kept fits w lo =
    let p' = (evaluate p r.action r.ctx r.now).1 in
    let same' : p'.config ≡ config = evaluate-config p r.action r.ctx r.now ∙ same in
    let before : Within p key last log =
      subst
        (λ (c : ThresholdConfig).
          IsBounded c.max_per_window c.window last log (entry p.history key))
        (sym same) w in
    let after =
      step p key last log r t.0 (Kept-now config key p r rs same kept) (rw same fits) before in
    rw (← append_assoc) (
      run-IsBounded config key p' rs r.now
        (log ++ charge p key r (evaluate p r.action r.ctx r.now).0) same' t.1
        (Kept-later config key p r rs kept) fits
        (subst
          (λ (c : ThresholdConfig).
            IsBounded c.max_per_window c.window r.now
              (log ++ charge p key r (evaluate p r.action r.ctx r.now).0) (entry p'.history key))
          same' after)
        lo)

account_empty :
    (config : ThresholdConfig) (key : Identity)
    → IsBounded config.max_per_window config.window 0 [] (entry (new config).history key)
unfolding entry get
account_empty config key = IsBounded-empty config.max_per_window config.window

-- For a fresh policy without a store, every caller, every run of requests in the order of time that never
-- finds the history full, and every window of time of the configured length: the units of blast radius that
-- the policy admits for the caller in that window are at most `max_per_window`, if the two limits together are
-- below 2^64.
pub identity_budget :
    (config : ThresholdConfig) (key : Identity) (rs : List Request)
    → IsTimeline 0 rs
    → never_full (new config) rs ≡ true
    → config.max_per_window + config.max_per_request < usize_mod
    → (lo : ℕ)
    → within lo (lo + config.window) (account key (new config) rs) ≤ config.max_per_window
identity_budget config key rs t room fits lo =
    run-IsBounded config key (new config) rs 0 [] refl t (inl room) fits (account_empty config key)
      lo

-- With `scope = global` that holds of all callers together, for every run of requests in the order of
-- time, however many identities the callers use and however few may be tracked.
pub global_budget :
    (config : ThresholdConfig) (rs : List Request)
    → config.scope ≡ global
    → IsTimeline 0 rs
    → config.max_per_window + config.max_per_request < usize_mod
    → (lo : ℕ)
    → within lo (lo + config.window) (account global_history_key (new config) rs)
      ≤ config.max_per_window
global_budget config rs scope t fits lo =
    run-IsBounded config global_history_key (new config) rs 0 [] refl t (inr (scope, refl)) fits
      (account_empty config global_history_key) lo
