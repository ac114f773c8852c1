-- ===== src/Examples/Traffic.antt =====
-- Two connections under one chain, whose second policy bounds what both get through.
use protect.Examples.Codecs.{codec}
use protect.Examples.Frames
use protect.Examples.Frames.{ascii, hash_one}
use protect.Examples.ThresholdRuns
use protect.Examples.ThresholdRuns.{config, global_config}
use protect.Ldap.Requests.{ldap_connector}
use protect.Prelude.{ℕ, ◌+◌, ◌≤◌, ◌≡◌, refl, List, [], ◌∷◌, Text, codes, arith}
use protect.Proxy.{BindState, respond, police, after_claim, handle_client_frame}
use protect.Proxy.Budget.{forwarded_budget}
use protect.Proxy.Traffic.{Turn, forwarded}
use protect.Threshold.{ThresholdConfig, new}
use protect.Threshold.Sliding.{within}

unfoldable runs : Unit {0}
unfolding Frames.program ThresholdRuns.program forwarded respond police after_claim
    handle_client_frame
runs = tt

abbrev connected : Text → BindState
connected identity = record { identity = identity; pending = [] }

-- A deletion by the client of this identity.
abbrev deletion : Text → ℕ → Turn
deletion identity now = record {
  state = connected identity;
  clock = λ i. now + i;
  frame = 4 ∷ 1 ∷ codes "cn=bob";
}

-- A search, which no policy sees.
abbrev search_at : ℕ → Turn
search_at now = record {
  state = connected (codes "dn:a");
  clock = λ i. now + i;
  frame = 40 ∷ 1 ∷ [];
}

abbrev bounded : ThresholdConfig
bounded = record global_config { max_per_window = 2 }

-- The third deletion is one too many for the second policy, though each identity has room with the first.
abbrev deletions : List Turn
deletions =
    deletion (codes "dn:a") 0
    ∷ search_at 5
    ∷ deletion (codes "dn:b") 10
    ∷ deletion (codes "dn:c") 20
    ∷ deletion (codes "dn:a") 60_000_000_010
    ∷ []

two_get_through :
    forwarded
      (ldap_connector ascii codec hash_one)
      bounded
      1
      (new config ∷ new bounded ∷ [])
      deletions
    ≡ 1 ∷ 11 ∷ 60_000_000_011 ∷ []
unfolding runs
two_get_through = refl

forwarded_budget_example :
    within 1 (1 + 60_000_000_000) (
      forwarded
        (ldap_connector ascii codec hash_one)
        bounded
        1
        (new config ∷ new bounded ∷ [])
        deletions)
    ≤ 2
forwarded_budget_example =
    forwarded_budget (ldap_connector ascii codec hash_one) bounded (new config ∷ []) [] deletions
      refl (omega arith)
      (omega arith, (omega arith, (omega arith, (omega arith, (omega arith, tt))))) 1
