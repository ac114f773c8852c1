-- ===== src/Examples/ThresholdRuns.antt =====
-- Runs of `ThresholdPolicy`, on inputs like those of the tests in src/core/policy/threshold.rs.
use protect.Core.Action.{Action, account_lock, contains}
use protect.History.{
  ensure, prune_stale, record_admitted, contains_key, window_len, drop_stale, evict_stalest_until,
}
use protect.History.ActivitySet.{insert, remove, text_lt}
use protect.Policy.{block, evaluate_all}
use protect.Policy.Chain.{Outcome, evaluate_all-Outcome}
use protect.Prelude
use protect.Prelude.{
  ℕ, ◌+◌, ◌≤◌, ◌≡◌, refl, none, List, [], ◌∷◌, Text, codes, arith, max, text_eq, get, decimal,
}
use protect.Threshold.{
  ThresholdConfig, per_identity, global, global_history_key, new, evaluate, threshold_policy,
}
use protect.Threshold.Account.{Request, account, never_full}
use protect.Threshold.Budget.{identity_budget}
use protect.Threshold.Capacity.{run}
use protect.Threshold.Sliding.{within}

unfoldable pub program : Unit {0}
unfolding evaluate account never_full run within ensure prune_stale record_admitted contains_key
    window_len drop_stale evict_stalest_until insert remove text_lt contains text_eq get
    Prelude.insert Prelude.remove decimal evaluate_all
program = tt

abbrev pub config : ThresholdConfig
config = record {
  max_per_request = 3;
  max_per_window = 4;
  scope = per_identity;
  window = 60_000_000_000;
  state_db = none;
  flush_interval = 2_000_000_000;
  max_tracked_identities = 2;
  operations = none;
}

abbrev lock : ℕ → Action
lock radius = record {
  backend = codes "ldap";
  operation = account_lock;
  target = codes "cn=alice,dc=example,dc=com";
  blast_radius = radius;
}

abbrev pub request : Text → ℕ → ℕ → Request
request name radius now = record {
  action = lock radius;
  ctx = record { identity = name };
  now = now;
}

abbrev pub alice : Text
alice = codes "dn:cn=alice"

-- The third request does not fit in the window; the fourth comes when the first has aged out.
abbrev pub requests : List Request
requests =
    request alice 3 0
    ∷ request alice 1 1_000_000_000
    ∷ request alice 1 2_000_000_000
    ∷ request alice 2 61_000_000_000
    ∷ []

admitted_times :
    account alice (new config) requests
    ≡ 0 ∷ 0 ∷ 0 ∷ 1_000_000_000 ∷ 61_000_000_000 ∷ 61_000_000_000 ∷ []
unfolding program
admitted_times = refl

full_window :
    (evaluate
      (run (new config) (request alice 3 0 ∷ request alice 1 1 ∷ []))
      (lock 1)
      (record { identity = alice })
      2).0
    ≡ block (codes "4 matching actions in the last 60s would exceed window limit 4")
unfolding program
full_window = refl

oversized :
    (evaluate (new config) (lock 4) (record { identity = alice }) 2).0
    ≡ block (codes "blast radius 4 exceeds per-request limit 3")
unfolding program
oversized = refl

identity_budget_example :
    within 1_000_000_000 (1_000_000_000 + 60_000_000_000) (account alice (new config) requests) ≤ 4
unfolding program
identity_budget_example =
    identity_budget config alice requests (omega arith) refl (omega arith) 1_000_000_000

abbrev pub global_config : ThresholdConfig
global_config = record config { scope = global }

-- A fresh identity for each request.
abbrev churn : List Request
churn = request (codes "dn:a") 3 0 ∷ request (codes "dn:b") 1 1 ∷ request (codes "dn:c") 1 2 ∷ []

churn_blocked : account global_history_key (new global_config) churn ≡ 0 ∷ 0 ∷ 0 ∷ 1 ∷ []
unfolding program
churn_blocked = refl

evaluate_all-Outcome_example :
    Outcome
      (lock 4)
      (record { identity = alice })
      (λ i. i)
      (new config ∷ new global_config ∷ [])
      (evaluate_all
        (new config ∷ new global_config ∷ [])
        (lock 4)
        (record { identity = alice })
        (λ i. i))
evaluate_all-Outcome_example =
    evaluate_all-Outcome (lock 4) (record { identity = alice })
      (new config ∷ new global_config ∷ []) (λ i. i)
