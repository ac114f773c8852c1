-- ===== src/Threshold.antt =====
-- `ThresholdPolicy` of src/core/policy/threshold.rs: a cap on the blast radius of one request, and one
-- on what a caller, or all callers together, may do within a sliding window.
pub mod Entry
pub mod Sliding
pub mod Capacity
pub mod Account
pub mod Budget
use protect.Core.Action.{OperationKind, Action, contains}
use protect.Core.Identity.{Identity}
use protect.History
use protect.History.{History, contains_key, window_len}
use protect.Policy.{Decision, allow, block, PolicyContext, Policy}
use protect.Settings.{StateDbConfig}
use protect.Prelude.{
  ℕ, ◌+◌, ◌-◌, ◌/◌, ◌%◌, ◌^◌, Bool, not, Option, none, some, List, [], ◌∷◌, ◌++◌, Text, codes,
  decimal, map, replicate, nat_eq, ltb, if◌then◌else◌,
}

pub data ThresholdScope : Type 0 where
  per_identity global : ThresholdScope

abbrev pub global_history_key : Identity
global_history_key = 0 ∷ codes "ai-protect:global" ++ 0 ∷ []

-- `operations` is `none` where the policy is for all kinds. The settings of the store are with the
-- store.
pub record ThresholdConfig : Type 0 where
  pub max_per_request : ℕ
  pub max_per_window : ℕ
  pub scope : ThresholdScope
  pub window : ℕ
  pub state_db : Option StateDbConfig
  pub flush_interval : ℕ
  pub max_tracked_identities : ℕ
  pub operations : Option (List OperationKind)

-- What was admitted since the last flush, if there is a store.
pub record PersistentState : Type 0 where
  pub pending : List (Identity × ℕ)

pub record ThresholdPolicy : Type 0 where
  pub config : ThresholdConfig
  pub history : History
  pub state : Option PersistentState

-- `ThresholdPolicy::new` where no store is configured.
abbrev pub new : ThresholdConfig → ThresholdPolicy
new config = record { config = config; history = History.empty; state = none }

abbrev history_key_of : ThresholdScope → PolicyContext → Identity
history_key_of per_identity ctx = ctx.identity
history_key_of global ctx = global_history_key

abbrev pub history_key : ThresholdPolicy → PolicyContext → Identity
history_key p ctx = history_key_of p.config.scope ctx

abbrev pub usize_mod : ℕ
usize_mod = 2 ^ 64

-- The `Debug` form of a whole number of seconds, which is what the policy file can give.
debug_secs : ℕ → Text
debug_secs window =
    if nat_eq window 0 then codes "0ns" else decimal (window / 1_000_000_000) ++ codes "s"

scope_label : ThresholdScope → Text
scope_label per_identity = codes "matching actions"
scope_label global = codes "matching actions across all identities"

request_reason : ℕ → ℕ → Text
request_reason radius limit =
    codes "blast radius "
    ++ (decimal radius ++ (codes " exceeds per-request limit " ++ decimal limit))

window_reason : ℕ → ThresholdConfig → Text
unfolding debug_secs scope_label
window_reason used config =
    decimal used
    ++ (codes " "
        ++ (scope_label config.scope
            ++ (codes " in the last "
                ++ (debug_secs config.window
                    ++ (codes " would exceed window limit " ++ decimal config.max_per_window)))))

-- Whether the policy is for this kind of operation.
unfoldable pub covers : Option (List OperationKind) → OperationKind → Bool
covers none kind = Bool.true
covers (some operations) kind = contains operations kind

-- The room that a new identity is given before its own entry is made.
pub make_room : ThresholdConfig → History → Identity → History
make_room config h key =
    if contains_key h key
    then h
    else History.evict_stalest_until h (config.max_tracked_identities - 1)

-- The history that the window is measured on.
pub refresh : ThresholdConfig → History → Identity → ℕ → History
unfolding make_room
refresh config h key now =
    History.prune_stale (History.ensure (make_room config h key) key) key now config.window

-- One entry for each unit of the blast radius.
queue : Identity → ℕ → ℕ → PersistentState → PersistentState
queue key now radius s = record s {
  pending = s.pending ++ map (λ t. (key, t)) (replicate radius now);
}

pub queue_all : Identity → ℕ → ℕ → Option PersistentState → Option PersistentState
queue_all key now radius none = none
queue_all key now radius (some s) = some (queue key now radius s)

-- Whether the window has no room for the action. The sum is one of `usize`.
abbrev pub exceeds_window : ThresholdConfig → History → Identity → ℕ → Bool
exceeds_window config h key radius =
    ltb config.max_per_window ((window_len h key + radius) % usize_mod)

-- `evaluate` from the lock on, on the refreshed history.
pub decide : ThresholdPolicy → Identity → ℕ → ℕ → History → Decision × ThresholdPolicy
unfolding window_reason queue queue_all
decide p key radius now h =
    if exceeds_window p.config h key radius
    then (block (window_reason (window_len h key) p.config), record p { history = h })
    else (
      allow,
      record p {
        history = History.record_admitted h key now radius;
        state = queue_all key now radius p.state;
      },
    )

unfoldable pub evaluate : ThresholdPolicy → Action → PolicyContext → ℕ → Decision × ThresholdPolicy
unfolding covers request_reason refresh decide
evaluate p action ctx now =
    if not (covers p.config.operations action.operation)
    then (allow, p)
    else if ltb p.config.max_per_request action.blast_radius
    then (block (request_reason action.blast_radius p.config.max_per_request), p)
    else decide p (history_key p ctx) action.blast_radius now
        (refresh p.config p.history (history_key p ctx) now)

instance abbrev pub threshold_policy : Policy ThresholdPolicy
threshold_policy = record { evaluate = evaluate }
