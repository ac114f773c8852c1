-- ===== src/Pool.antt =====
-- src/core/upstream_pool.rs: the upstream targets that a connector balances its connections over.
-- `Arc` and atomics are state that each operation returns anew.
pub mod Order
pub mod Tiers
pub mod Turns
pub mod Health
pub mod Accounting
use protect.Core.Identity.{SocketAddr}
use protect.Prelude.{
  ℕ, zero, suc, ◌+◌, ◌-◌, ◌*◌, ◌%◌, ◌^◌, Bool, true, false, not, Option, none, some, List, [], ◌∷◌,
  ◌++◌, map, leb, ltb, length, take, drop, get_elem?, indices, if◌then◌else◌,
}

abbrev pub default_failure_cooldown_secs : ℕ
default_failure_cooldown_secs = 30

pub data LoadBalanceStrategy : Type 0 where
  round_robin random least_connections : LoadBalanceStrategy

-- `down_until` is `none` for a healthy target.
pub record Target : Type 0 where
  pub addr : SocketAddr
  pub active_connections : ℕ
  pub down_until : Option ℕ

pub record Candidate : Type 0 where
  pub index : ℕ
  pub addr : SocketAddr

pub record UpstreamPool : Type 0 where
  pub targets : List Target
  pub strategy : LoadBalanceStrategy
  pub cooldown : ℕ
  pub round_robin_counter : ℕ

abbrev pub usize_mod : ℕ
usize_mod = 2 ^ 64

abbrev pub fresh_target : SocketAddr → Target
fresh_target addr = record { addr = addr; active_connections = 0; down_until = none }

-- `none` is the panic on an empty list.
unfoldable pub new : List SocketAddr → LoadBalanceStrategy → ℕ → Option UpstreamPool
new [] strategy cooldown = none
new (addr ∷ addrs) strategy cooldown = some (record {
  targets = map fresh_target (addr ∷ addrs);
  strategy = strategy;
  cooldown = cooldown;
  round_robin_counter = 0;
})

-- Whether a target with this `down_until` is healthy at `now`.
abbrev pub healthy_at : Option ℕ → ℕ → Bool
healthy_at none now = true
healthy_at (some until) now = leb until now

abbrev healthy_target : Option Target → ℕ → Bool
healthy_target none now = false
healthy_target (some t) now = healthy_at t.down_until now

-- `clock i` is what the test of target `i` reads. An index out of range would be a panic; none occurs.
unfoldable pub is_healthy : UpstreamPool → (ℕ → ℕ) → ℕ → Bool
is_healthy pool clock i = healthy_target (get_elem? pool.targets i) (clock i)

-- `Iterator::partition`
unfoldable pub partition : (ℕ → Bool) → List ℕ → List ℕ × List ℕ
partition p [] = ([], [])
partition p (i ∷ is) =
    let rest = partition p is in if p i then (i ∷ rest.0, rest.1) else (rest.0, i ∷ rest.1)

-- The healthy indices and the others, as `candidates` sees them.
unfoldable pub tiers : UpstreamPool → (ℕ → ℕ) → List ℕ × List ℕ
tiers pool clock = partition (is_healthy pool clock) (indices 0 (length pool.targets))

abbrev connections_of : Option Target → ℕ
connections_of none = 0
connections_of (some t) = t.active_connections

-- `self.targets[i].active_connections.load(..)`; an index in the pool's order is always in range.
unfoldable pub load : List Target → ℕ → ℕ
load targets i = connections_of (get_elem? targets i)

-- The stable sort of `sort_by_key`.
unfoldable pub insert_by : {A : Type 0} → (A → ℕ) → A → List A → List A
insert_by key x [] = x ∷ []
insert_by key x (y ∷ ys) = if leb (key x) (key y) then x ∷ y ∷ ys else y ∷ insert_by key x ys

unfoldable pub sort_by_key : {A : Type 0} → (A → ℕ) → List A → List A
sort_by_key key [] = []
sort_by_key key (x ∷ xs) = insert_by key x (sort_by_key key xs)

unfoldable pub rotate_left : ℕ → List ℕ → List ℕ
rotate_left n xs = drop n xs ++ take n xs

-- The healthy targets in the order of the strategy, and the counter afterwards. `shuffle` is that of
-- the `rand` crate.
unfoldable pub arrange :
    (List ℕ → List ℕ) → UpstreamPool → LoadBalanceStrategy → List ℕ → List ℕ × ℕ
arrange shuffle pool round_robin [] = ([], pool.round_robin_counter)
arrange shuffle pool round_robin (x ∷ xs) = (
  rotate_left (pool.round_robin_counter % length (x ∷ xs)) (x ∷ xs),
  (pool.round_robin_counter + 1) % usize_mod,
)
arrange shuffle pool random xs = (shuffle xs, pool.round_robin_counter)
arrange shuffle pool least_connections xs =
    (sort_by_key (load pool.targets) xs, pool.round_robin_counter)

-- The order of the indices.
unfoldable pub order : (List ℕ → List ℕ) → (ℕ → ℕ) → UpstreamPool → List ℕ
order shuffle clock pool =
    (arrange shuffle pool pool.strategy (tiers pool clock).0).0 ++ (tiers pool clock).1

abbrev to_candidate : ℕ → Option Target → List Candidate
to_candidate i none = []
to_candidate i (some t) = record { index = i; addr = t.addr } ∷ []

-- `.map(|index| Candidate { .. })`, where an index out of range would be a panic.
unfoldable pub lookup_all : List Target → List ℕ → List Candidate
lookup_all targets [] = []
lookup_all targets (i ∷ is) = to_candidate i (get_elem? targets i) ++ lookup_all targets is

unfoldable pub candidates :
    (List ℕ → List ℕ) → (ℕ → ℕ) → UpstreamPool → List Candidate × UpstreamPool
unfolding order
candidates shuffle clock pool = (
  lookup_all pool.targets (order shuffle clock pool),
  record pool { round_robin_counter = (arrange shuffle pool pool.strategy (tiers pool clock).0).1 },
)

-- A change of one target.
unfoldable pub update : (Target → Target) → List Target → ℕ → List Target
update f [] i = []
update f (t ∷ ts) zero = f t ∷ ts
update f (t ∷ ts) (suc i) = t ∷ update f ts i

abbrev pub failed_until : ℕ → Target → Target
failed_until until t = record t { down_until = some until }

unfoldable pub mark_down : UpstreamPool → ℕ → ℕ → UpstreamPool
mark_down pool index until = record pool {
  targets = update (failed_until until) pool.targets index;
}

-- The last instant, in nanoseconds: its seconds are an `i64`.
abbrev pub max_instant : ℕ
max_instant = 2 ^ 63 * 1_000_000_000 - 1

-- `none` is the panic of `Instant::now() + self.cooldown`, which leaves the target as it was.
unfoldable pub mark_failed : UpstreamPool → ℕ → ℕ → Option UpstreamPool
mark_failed pool index now =
    if leb (now + pool.cooldown) max_instant
    then some (mark_down pool index (now + pool.cooldown))
    else none

abbrev pub connected : Target → Target
connected t = record t {
  active_connections = (t.active_connections + 1) % usize_mod;
  down_until = none;
}

-- The guard that is returned is the index.
unfoldable pub mark_connected : UpstreamPool → ℕ → UpstreamPool × ℕ
mark_connected pool index = (record pool { targets = update connected pool.targets index }, index)

abbrev pub released : Target → Target
released t = record t { active_connections = (t.active_connections + usize_mod - 1) % usize_mod }

-- `Drop` of the guard.
unfoldable pub release : UpstreamPool → ℕ → UpstreamPool
release pool index = record pool { targets = update released pool.targets index }
