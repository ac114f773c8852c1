-- ===== src/Core/Identity.antt =====
-- src/core/identity.rs: the key under which a caller's budget is kept. An `IpAddr` is the text that
-- `Display` writes for it.
use protect.Prelude.{ℕ, ◌≡◌, ◌≢◌, ◌++◌, arith, Text, codes}

pub record SocketAddr : Type 0 where
  pub ip : Text
  pub port : ℕ

-- The wrapped string.
abbrev pub Identity : Type 0
Identity = Text

unfoldable pub from_peer_addr : SocketAddr → Identity
from_peer_addr addr = codes "ip:" ++ addr.ip

unfoldable pub from_bind_dn : Text → Identity
from_bind_dn dn = codes "dn:" ++ dn

-- No bind DN, however it is written, gives the identity of a peer address, and each way keeps
-- distinct callers apart.
pub identities_disjoint : (addr : SocketAddr) (dn : Text) → from_peer_addr addr ≢ from_bind_dn dn
unfolding from_peer_addr from_bind_dn
identities_disjoint addr dn e = ground arith

pub from_bind_dn_injective : (d e : Text) → from_bind_dn d ≡ from_bind_dn e → d ≡ e
unfolding from_bind_dn
from_bind_dn_injective d e h = cc
