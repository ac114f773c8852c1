-- ===== src/Proxy/Session.antt =====
-- The two relays of a connection, `relay_client_requests` and `relay_upstream_responses` of src/proxy.rs,
-- as one task that switches between them where they wait: a frame is handled in one step and what it
-- leads to is written in a later one, and between any two steps other connections may change the
-- state of the policies, which they share; the chain keeps its policies.
use protect.Core.Connector.{Connector}
use protect.Core.Identity.{SocketAddr, from_peer_addr}
use protect.Policy.{Policy}
use protect.Prelude.{ℕ, Option, none, some, List, [], ◌∷◌, ◌++◌, ◌≡◌, ok, Text, length}
use protect.Proxy.{
  BindState, Output, to_upstream, to_client, resolve_pending_bind, handle_client_frame,
}

-- What is written to the client: a frame of the upstream, or a rejection.
pub data Reply : Type 0 where
  relayed rejected : Text → Reply

pub record Session (P : Type 0) : Type 0 where
  pub bind_state : BindState
  pub policies : List P
  pub client_output : Option Output
  pub upstream_output : Option Text
  pub sent_upstream : List Text
  pub sent_client : List Reply

-- A connection of this peer.
abbrev pub open_session : {P : Type 0} → SocketAddr → List P → Session P
open_session peer policies = record {
  bind_state = record { identity = from_peer_addr peer; pending = [] };
  policies = policies;
  client_output = none;
  upstream_output = none;
  sent_upstream = [];
  sent_client = [];
}

abbrev pub write_output : {P : Type 0} → Output → Session P → Session P
write_output (to_upstream frame) s = record s {
  client_output = none;
  sent_upstream = s.sent_upstream ++ frame ∷ [];
}
write_output (to_client rejection) s = record s {
  client_output = none;
  sent_client = s.sent_client ++ rejected rejection ∷ [];
}

abbrev pub write_response : {P : Type 0} → Text → Session P → Session P
write_response frame s = record s {
  upstream_output = none;
  sent_client = s.sent_client ++ relayed frame ∷ [];
}

-- The frames that a connection has handled, the last one first.
pub data Event : Type 0 where
  client : Text → Output → Event
  upstream : Text → Event

module _ {E P : Type 0} ⦃policy : Policy P⦄ (connector : Connector E) where
  -- An error, a timeout or an end of a stream ends the connection, and no step follows.
  pub data Step (s : Session P) (log : List Event) : Session P → List Event → Type 0 where
    client_frame :
        (frame : Text) (clock : ℕ → ℕ) (output : Output) (state : BindState) (policies : List P)
        → s.client_output ≡ none
        → handle_client_frame connector s.bind_state s.policies clock frame
          ≡ (ok output, (state, policies))
        → Step s log
            (record s { bind_state = state; policies = policies; client_output = some output })
            (client frame output ∷ log)
    client_written :
        (output : Output) → s.client_output ≡ some output → Step s log (write_output output s) log
    upstream_frame :
        (frame : Text) (state : BindState)
        → s.upstream_output ≡ none
        → resolve_pending_bind connector s.bind_state frame ≡ ok state
        → Step s log
            (record s { bind_state = state; upstream_output = some frame })
            (upstream frame ∷ log)
    upstream_written :
        (frame : Text) → s.upstream_output ≡ some frame → Step s log (write_response frame s) log
    elsewhere :
        (policies : List P)
        → length policies ≡ length s.policies
        → Step s log (record s { policies = policies }) log

  -- From the opening of the connection.
  pub data Reach (peer : SocketAddr) (policies : List P) : Session P → List Event → Type 0 where
    opened : Reach peer policies (open_session peer policies) []
    next :
        {s t : Session P} {log log' : List Event}
        → Reach peer policies s log
        → Step s log t log'
        → Reach peer policies t log'
