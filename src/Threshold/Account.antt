-- ===== src/Threshold/Account.antt =====
-- The account of a caller, and one request against it (src/core/policy/threshold.rs, `evaluate`).
use protect.Core.Action.{Action}
use protect.Core.Identity.{Identity}
use protect.History.{window_len, drop_stale, len, record_admitted}
use protect.History.Entries.{entry}
use protect.Policy.{Decision, allow, block, PolicyContext}
use protect.Prelude.{
  ℕ, Text, ◌+◌, ◌%◌, ◌≤◌, ◌<◌, Bool, true, false, List, [], ◌∷◌, ◌++◌, ◌≡◌, ◌⊎◌, inl, inr, ◌&&◌,
  arith, text_equality, text_eq, text_eq_iff, ltb, length, replicate, Bool-cases, if◌then◌else◌,
  append-nil,
}
use protect.Threshold.{
  ThresholdPolicy, make_room, refresh, evaluate, covers, exceeds_window, usize_mod, history_key,
}
use protect.Threshold.Entry.{
  entry-admit, entry-admit_ne, entry-refresh, entry-refresh_ne, window_len-refresh,
  evaluate_uncovered, evaluate_oversized, evaluate_full, evaluate_admitted, refreshed,
}
use protect.Threshold.Sliding.{IsBounded, IsBounded-later, IsBounded-prune, IsBounded-admit}

pub record Request : Type 0 where
  pub action : Action
  pub ctx : PolicyContext
  pub now : ℕ

abbrev pub is_allow : Decision → Bool
is_allow allow = true
is_allow (block reason) = false

-- The instants that a decision adds to the account of `key`: one for each unit of the blast radius of an
-- admitted action that the policy covers, and that was made under `key`.
abbrev pub charge : ThresholdPolicy → Identity → Request → Decision → List ℕ
charge p key r decision =
    if covers p.config.operations r.action.operation
      && (text_eq (history_key p r.ctx) key && is_allow decision)
    then replicate r.action.blast_radius r.now
    else []

-- The account of `key` over a run of requests, one after the other.
unfoldable pub account : Identity → ThresholdPolicy → List Request → List ℕ
account key p [] = []
account key p (r ∷ rs) =
    let (decision, p') = evaluate p r.action r.ctx r.now in
    charge p key r decision ++ account key p' rs

-- The clock does not run backwards.
abbrev pub IsTimeline : ℕ → List Request → Type 0
IsTimeline last [] = Unit
IsTimeline last (r ∷ rs) = (last ≤ r.now) × IsTimeline r.now rs

-- No request finds the history full: nobody is ever evicted.
unfoldable pub never_full : ThresholdPolicy → List Request → Bool
never_full p [] = true
never_full p (r ∷ rs) =
    ltb (len p.history) p.config.max_tracked_identities
    && never_full (evaluate p r.action r.ctx r.now).1 rs

abbrev pub Within : ThresholdPolicy → Identity → ℕ → List ℕ → Type 0
Within p key last log =
    IsBounded p.config.max_per_window p.config.window last log (entry p.history key)

charge_block :
    (p : ThresholdPolicy) (key : Identity) (r : Request) (reason : Text)
    → charge p key r (block reason) ≡ []
charge_block p key r reason = ground arith

module _ (p : ThresholdPolicy) (key : Identity) (last : ℕ) (log : List ℕ) (r : Request) where
  -- The refreshed history accounts for `key` as before, if `key` was not evicted.
  account_refreshed :
      last ≤ r.now
      → (text_eq (history_key p r.ctx) key ≡ true)
        ⊎ (make_room p.config p.history (history_key p r.ctx) ≡ p.history)
      → Within p key last log
      → IsBounded p.config.max_per_window p.config.window r.now log
          (entry (refresh p.config p.history (history_key p r.ctx) r.now) key)
  account_refreshed le kept w = elim (Bool-cases (text_eq (history_key p r.ctx) key)) [
    | inl same ↦
        let e : history_key p r.ctx ≡ key = (text_eq_iff (history_key p r.ctx) key).0 same in
        rw (e, entry-refresh p.config p.history key r.now)
          (IsBounded-prune p.config.max_per_window p.config.window last r.now log
            (entry p.history key) le w)
    | inr other ↦
        let unmoved : make_room p.config p.history (history_key p r.ctx) ≡ p.history = elim kept [
          | inl same ↦ cc
          | inr e ↦ e
        ] in
        rw (entry-refresh_ne p.config p.history (history_key p r.ctx) key r.now other unmoved) (
          IsBounded-later p.config.max_per_window p.config.window last r.now log
            (entry p.history key) le w)
  ]

  -- The window of the key has room, and the sum does not wrap around.
  room_left :
      p.config.max_per_window + p.config.max_per_request < usize_mod
      → ltb p.config.max_per_request r.action.blast_radius ≡ false
      → exceeds_window p.config
          (refreshed p r.action r.ctx r.now)
          (history_key p r.ctx)
          r.action.blast_radius
        ≡ false
      → (n : ℕ) → window_len (refreshed p r.action r.ctx r.now) (history_key p r.ctx) ≡ n
      → n ≤ p.config.max_per_window
      → n + r.action.blast_radius ≤ p.config.max_per_window
  room_left fits small room n e le =
      let wrapped : (n + r.action.blast_radius) % usize_mod ≤ p.config.max_per_window =
        rw e at (unwrapped room) in
      omega (arith, small_radius small)
    where
      unwrapped :
          exceeds_window p.config
              (refreshed p r.action r.ctx r.now)
              (history_key p r.ctx)
              r.action.blast_radius
            ≡ false
          → (window_len (refreshed p r.action r.ctx r.now) (history_key p r.ctx)
                + r.action.blast_radius)
              % usize_mod
            ≤ p.config.max_per_window
      unwrapped h = ground arith

      small_radius :
          ltb p.config.max_per_request r.action.blast_radius ≡ false
          → r.action.blast_radius ≤ p.config.max_per_request
      small_radius h = ground arith

  account_admitted :
      last ≤ r.now
      → (text_eq (history_key p r.ctx) key ≡ true)
        ⊎ (make_room p.config p.history (history_key p r.ctx) ≡ p.history)
      → p.config.max_per_window + p.config.max_per_request < usize_mod
      → covers p.config.operations r.action.operation ≡ true
      → ltb p.config.max_per_request r.action.blast_radius ≡ false
      → exceeds_window p.config
          (refreshed p r.action r.ctx r.now)
          (history_key p r.ctx)
          r.action.blast_radius
        ≡ false
      → Within p key last log
      → IsBounded p.config.max_per_window p.config.window r.now (log ++ charge p key r allow) (
          entry
            (record_admitted
              (refreshed p r.action r.ctx r.now)
              (history_key p r.ctx)
              r.now
              r.action.blast_radius)
            key)
  account_admitted le kept fits covered small room w =
      elim (Bool-cases (text_eq (history_key p r.ctx) key)) [
        | inl same ↦
            let e : history_key p r.ctx ≡ key = (text_eq_iff (history_key p r.ctx) key).0 same in
            let recent : List ℕ = drop_stale r.now p.config.window (entry p.history key) in
            let pruned =
              IsBounded-prune p.config.max_per_window p.config.window last r.now log
                (entry p.history key) le w in
            let measured : window_len (refreshed p r.action r.ctx r.now) (history_key p r.ctx)
                ≡ length recent =
              rw e (window_len-refresh p.config p.history key r.now) in
            rw (covered, same, e, entry-admit p.config p.history key r.now r.action.blast_radius)
              (IsBounded-admit p.config.max_per_window p.config.window r.now r.action.blast_radius
                log recent (room_left fits small room (length recent) measured pruned.short) pruned)
        | inr other ↦
            rw
              (
                covered,
                other,
                append-nil,
                entry-admit_ne p.config p.history (history_key p r.ctx) key r.now
                    r.action.blast_radius other,
              )
              (account_refreshed le kept w)
      ]

  pub step :
      last ≤ r.now
      → (text_eq (history_key p r.ctx) key ≡ true)
        ⊎ (make_room p.config p.history (history_key p r.ctx) ≡ p.history)
      → p.config.max_per_window + p.config.max_per_request < usize_mod
      → Within p key last log
      → Within
          (evaluate p r.action r.ctx r.now).1
          key
          r.now
          (log ++ charge p key r (evaluate p r.action r.ctx r.now).0)
  step le kept fits w = elim (Bool-cases (covers p.config.operations r.action.operation)) [
    | inr skip ↦
        rw (evaluate_uncovered p r.action r.ctx r.now skip, skip, append-nil)
          (IsBounded-later p.config.max_per_window p.config.window last r.now log
            (entry p.history key) le w)
    | inl covered ↦ elim (Bool-cases (ltb p.config.max_per_request r.action.blast_radius)) [
      | inl big ↦
          let (reason, e) = evaluate_oversized p r.action r.ctx r.now covered big in
          rw (e, charge_block p key r reason, append-nil)
            (IsBounded-later p.config.max_per_window p.config.window last r.now log
              (entry p.history key) le w)
      | inr small ↦
          elim (Bool-cases (
            exceeds_window p.config (refreshed p r.action r.ctx r.now) (history_key p r.ctx)
              r.action.blast_radius)) [
                | inl full ↦
                    let (reason, e) = evaluate_full p r.action r.ctx r.now covered small full in
                    rw (e, charge_block p key r reason, append-nil) (account_refreshed le kept w)
                | inr room ↦
                    rw (evaluate_admitted p r.action r.ctx r.now covered small room)
                      (account_admitted le kept fits covered small room w)
              ]
    ]
  ]
