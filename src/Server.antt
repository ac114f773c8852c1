-- ===== src/Server.antt =====
-- `serve` of src/proxy.rs: the accept loop, its limit of connections, and its end.
pub mod Limits
use protect.Prelude.{
  ℕ, zero, suc, ◌+◌, ◌-◌, ◌^◌, Option, none, some, Bool, true, false, List, [], ◌∷◌, leb, nat_eq,
  if◌then◌else◌,
}

-- `available` are the permits of the semaphore. The `JoinSet` holds the tasks of the connections that run and,
-- as nothing joins them before the shutdown, of those that have ended.
pub record Server : Type 0 where
  pub available : ℕ
  pub running : ℕ
  pub ended : ℕ

-- `Semaphore::MAX_PERMITS`, beyond which `Semaphore::new` panics.
abbrev pub max_permits : ℕ
max_permits = 2 ^ 61 - 1

unfoldable pub open_server : ℕ → Option Server
open_server max_connections =
    if leb max_connections max_permits
    then some (record { available = max_connections; running = 0; ended = 0 })
    else none

-- `connections.len()`
abbrev pub in_flight : Server → ℕ
in_flight s = s.running + s.ended

pub data Event : Type 0 where
  incoming finished : Event

abbrev pub admit : ℕ → Server → Server
admit zero s = s
admit (suc available) s = record s { available = available; running = s.running + 1 }

-- The task of a connection ends and drops its permit; without a running task there is nothing to end.
abbrev pub finish : ℕ → Server → Server
finish zero s = s
finish (suc running) s = record {
  available = s.available + 1;
  running = running;
  ended = s.ended + 1;
}

-- Without a permit a connection is closed at once.
unfoldable pub handle : Server → Event → Server
handle s incoming = admit s.available s
handle s finished = finish s.running s

unfoldable pub serve_loop : Server → List Event → Server
serve_loop s [] = s
serve_loop s (e ∷ es) = serve_loop (handle s e) es

-- How a shutdown ends: the tasks that were joined, those that were aborted, and those that still run.
pub record Shutdown : Type 0 where
  pub joined : ℕ
  pub aborted : ℕ
  pub left : ℕ

-- `finishing` are the running tasks that end by themselves within the grace period.
unfoldable pub shut_down : Server → ℕ → Shutdown
shut_down s finishing =
    if nat_eq (in_flight s) 0
    then record { joined = 0; aborted = 0; left = s.running }
    else if leb s.running finishing
    then record { joined = in_flight s; aborted = 0; left = 0 }
    else record { joined = s.ended + finishing; aborted = s.running - finishing; left = 0 }
