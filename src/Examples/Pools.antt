-- ===== src/Examples/Pools.antt =====
-- Runs of the upstream pool and of a dialing of its targets, on inputs like those of the tests in
-- src/core/upstream_pool.rs.
use protect.Core.Identity.{SocketAddr}
use protect.Ldap.Upstream.{
  connected, connect_loop, connect_upstream, fail_all, Owes, connect_upstream-Owes,
}
use protect.Pool.{
  UpstreamPool, LoadBalanceStrategy, round_robin, random, least_connections, new, is_healthy,
  partition, tiers, load, insert_by, sort_by_key, rotate_left, arrange, order, lookup_all,
  candidates, update, mark_failed, mark_down, mark_connected, release,
}
use protect.Pool.Accounting.{
  System, Reach, here, next, connect, drop, count, active_connections_lem,
}
use protect.Pool.Health.{is_healthy-after}
use protect.Pool.Order.{rotate_left-Perm}
use protect.Pool.Tiers.{IsOffer, candidates-IsOffer}
use protect.Pool.Turns.{after_calls, round_robin_turns}
use protect.Prelude.{
  map_option, ◌^◌, ◌*◌, ℕ, Result, ok, err, ◌≡◌, refl, some, none, true, false, List, [], ◌∷◌,
  get_elem?, codes, nat_eq, arith, if◌then◌else◌,
}

program : Unit {0}
unfolding connect_loop connect_upstream fail_all new is_healthy partition tiers load insert_by
    sort_by_key rotate_left arrange order lookup_all candidates update mark_down mark_failed
    mark_connected release count after_calls
program = tt

abbrev target_addr : ℕ → SocketAddr
target_addr n = record { ip = codes "10.0.0.1"; port = n }

abbrev three : LoadBalanceStrategy → UpstreamPool
three strategy = record {
  targets =
      record { addr = target_addr 1; active_connections = 2; down_until = none }
      ∷ record { addr = target_addr 2; active_connections = 0; down_until = some 50 }
      ∷ record { addr = target_addr 3; active_connections = 1; down_until = some 10 }
      ∷ [];
  strategy = strategy;
  cooldown = 30;
  round_robin_counter = 7;
}

abbrev at_20 : ℕ → ℕ
at_20 i = 20

abbrev turn : List ℕ → List ℕ
turn xs = rotate_left 1 xs

order_round_robin : order turn at_20 (three round_robin) ≡ 2 ∷ 0 ∷ 1 ∷ []
unfolding program
order_round_robin = refl

order_random : order turn at_20 (three random) ≡ 2 ∷ 0 ∷ 1 ∷ []
unfolding program
order_random = refl

order_least_connections : order turn at_20 (three least_connections) ≡ 2 ∷ 0 ∷ 1 ∷ []
unfolding program
order_least_connections = refl

candidates-IsOffer_example :
    IsOffer (three least_connections) at_20 (candidates turn at_20 (three least_connections)).0
candidates-IsOffer_example =
    candidates-IsOffer turn (λ xs. rotate_left-Perm 1 xs) (three least_connections) at_20

round_robin_turns_example :
    get_elem? (order turn at_20 (after_calls turn (at_20 ∷ []) (three round_robin))) 0 ≡ some 0
unfolding program
round_robin_turns_example =
    round_robin_turns turn (three round_robin) (at_20 ∷ []) at_20 0 (2 ∷ []) refl (refl, tt) refl
      (omega arith)

is_healthy-after_example :
    (map_option (λ q. is_healthy q at_20 0) (mark_failed (three random) 0 25) ≡ some false)
    × (is_healthy (mark_connected (three random) 0).0 at_20 0 ≡ true)
    × (is_healthy (release (three random) 0) at_20 0 ≡ true)
unfolding program
is_healthy-after_example = is_healthy-after (three random) at_20 0 0 25 (omega arith)

abbrev fresh : UpstreamPool
fresh = record {
  targets =
      record { addr = target_addr 1; active_connections = 0; down_until = none }
      ∷ record { addr = target_addr 2; active_connections = 0; down_until = none }
      ∷ [];
  strategy = least_connections;
  cooldown = 30;
  round_robin_counter = 0;
}

-- Two connections to the second target, then the end of one.
abbrev start : System
start = record { pool = fresh; guards = [] }

abbrev one : System
one = record { pool = (mark_connected fresh 1).0; guards = 1 ∷ [] }

abbrev both : System
both = record { pool = (mark_connected (mark_connected fresh 1).0 1).0; guards = 1 ∷ 1 ∷ [] }

abbrev left : System
left = record { pool = release (mark_connected (mark_connected fresh 1).0 1).0 1; guards = 1 ∷ [] }

left-Reach : Reach turn start left
unfolding program
left-Reach =
    next {t = both}
      (next {t = one} (next here (connect 1 (omega arith) (omega arith)))
        (connect 1 (omega arith) (omega arith)))
      (drop 1 (1 ∷ []) [] refl)

active_connections_lem_example : load left.pool.targets 1 ≡ 1
unfolding program
active_connections_lem_example =
    active_connections_lem turn (target_addr 1 ∷ target_addr 2 ∷ []) least_connections 30 fresh left
      refl left-Reach 1 (omega arith)

-- Only the first target answers, which is the second that is tried.
abbrev dial_first : ℕ → SocketAddr → Result ℕ ℕ
dial_first k addr = if nat_eq addr.port 1 then ok 5 else err k

abbrev clock_30 : ℕ → ℕ
clock_30 k = 30

connect_upstream_test :
    (connect_upstream dial_first clock_30 turn at_20 (three round_robin)).0 ≡ connected 5 0
unfolding program
connect_upstream_test = refl

connect_upstream-Owes_example :
    IsOffer (three round_robin) at_20 (candidates turn at_20 (three round_robin)).0
    × Owes dial_first clock_30
        (candidates turn at_20 (three round_robin)).0
        0
        (candidates turn at_20 (three round_robin)).1
        (connect_upstream dial_first clock_30 turn at_20 (three round_robin))
connect_upstream-Owes_example =
    connect_upstream-Owes dial_first clock_30 turn at_20 (three round_robin)
      (λ xs. rotate_left-Perm 1 xs) (omega arith) (λ j. omega arith)

-- A cooldown as long as a u64 of seconds allows.
fails_late : mark_failed (record (three random) { cooldown = 2 ^ 64 * 1_000_000_000 }) 0 25 ≡ none
unfolding program
fails_late = refl
