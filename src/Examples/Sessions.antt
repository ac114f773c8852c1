-- ===== src/Examples/Sessions.antt =====
-- A connection of the whole program: a bind, its response, and a modification, under the threshold policy.
use protect.Core.Connector.{Connector}
use protect.Core.Identity.{SocketAddr, from_peer_addr, from_bind_dn}
use protect.Examples.Codecs.{codec}
use protect.Examples.Frames
use protect.Examples.Frames.{ascii, hash_one, modification}
use protect.Examples.ThresholdRuns
use protect.Examples.ThresholdRuns.{config}
use protect.Ldap.Requests.{LdapError, ldap_connector, read_bind_response}
use protect.Prelude.{
  ℕ, ◌≡◌, ok, ◌≤◌, refl, some, List, [], ◌∷◌, Text, codes, length, get, arith, nat_equality,
  if◌then◌else◌, nat_eq,
}
use protect.Proxy.{
  BindState, to_upstream, handle_client_frame, resolve_pending_bind, police, after_claim, respond,
  settle, settle_response, stage_claim, stage_pending_bind, make_room, min_key, max_pending_binds,
}
use protect.Proxy.Identities.{IsSafe, Reach-IsSafe}
use protect.Proxy.Pending.{Room, stage_pending_bind-Room}
use protect.Proxy.Relays.{IsRelayed, Reach-IsRelayed}
use protect.Proxy.Decisions.{Decided}
use protect.Proxy.Reuse.{reused_id}
use protect.Proxy.Session.{
  Session, Event, client, upstream, client_frame, client_written, upstream_frame, Reach, opened,
  next, open_session, write_output,
}
use protect.Threshold.{ThresholdPolicy, threshold_policy, new}

program : Unit {0}
unfolding Frames.program ThresholdRuns.program handle_client_frame resolve_pending_bind police
    after_claim respond settle settle_response stage_pending_bind make_room min_key
    read_bind_response from_peer_addr from_bind_dn
program = tt

abbrev peer : SocketAddr
peer = record { ip = codes "10.0.0.9"; port = 40000 }

abbrev chain : List ThresholdPolicy
chain = new config ∷ []

abbrev connector : Connector LdapError
connector = ldap_connector ascii codec hash_one

abbrev bind_frame : Text
bind_frame = 2 ∷ 9 ∷ codes "CN=Alice"

abbrev bound_frame : Text
bound_frame = 7 ∷ 9 ∷ []

abbrev clock : ℕ → ℕ
clock i = 0

abbrev start : Session ThresholdPolicy
start = open_session peer chain

-- The bind is staged, and waits to be written.
abbrev staged : Session ThresholdPolicy
staged = record start {
  bind_state = record { identity = from_peer_addr peer; pending = (9, codes "cn=alice") ∷ [] };
  client_output = some (to_upstream bind_frame);
}

abbrev written : Session ThresholdPolicy
written = write_output (to_upstream bind_frame) staged

abbrev promoted : Session ThresholdPolicy
promoted = record written {
  bind_state = record { identity = from_bind_dn (codes "cn=alice"); pending = [] };
  upstream_output = some bound_frame;
}

abbrev events : List Event
events = upstream bound_frame ∷ client bind_frame (to_upstream bind_frame) ∷ []

promoted-Reach : Reach connector peer chain promoted events
unfolding program
promoted-Reach =
    next {s = written}
      (next {s = staged}
        (next {s = start} opened (
          client_frame bind_frame clock (to_upstream bind_frame) staged.bind_state chain refl refl))
        (client_written (to_upstream bind_frame) refl))
      (upstream_frame bound_frame promoted.bind_state refl refl)

Reach-IsSafe_example : IsSafe connector peer events promoted.bind_state
Reach-IsSafe_example = Reach-IsSafe connector peer chain promoted events promoted-Reach

Reach-IsRelayed_example :
    IsRelayed connector peer events promoted
    × Decided connector peer chain promoted events promoted-Reach
Reach-IsRelayed_example = Reach-IsRelayed connector peer chain promoted events promoted-Reach

-- The modification is then allowed under the new identity.
allowed :
    (handle_client_frame connector promoted.bind_state chain clock modification).0
    ≡ ok (to_upstream modification)
unfolding program
allowed = refl

stage_pending_bind-Room_example :
    (length (stage_pending_bind ((4, codes "cn=a") ∷ []) 5 (codes "cn=b")) ≤ max_pending_binds)
    × Room ((4, codes "cn=a") ∷ []) 5
    × ((j : ℕ)
        → get j (stage_pending_bind ((4, codes "cn=a") ∷ []) 5 (codes "cn=b")) ≡ (
            if nat_eq 5 j
            then some (codes "cn=b")
            else get j (make_room ((4, codes "cn=a") ∷ []) 5)))
stage_pending_bind-Room_example =
    stage_pending_bind-Room ((4, codes "cn=a") ∷ []) 5 (codes "cn=b") (omega arith)

abbrev refused_frame : Text
refused_frame = 9 ∷ 9 ∷ []

reused_id_example :
    (taken : BindState) × (resolve_pending_bind connector
        (stage_claim
          (stage_claim start.bind_state (some (9, codes "cn=alice")))
          (some (9, codes "cn=bob")))
        bound_frame
      ≡ ok taken)
    × (resolve_pending_bind connector taken refused_frame ≡ ok taken)
    × (taken.identity ≡ from_bind_dn (codes "cn=bob"))
unfolding program
reused_id_example =
    reused_id connector start.bind_state 9 (codes "cn=alice") (codes "cn=bob") bound_frame
      refused_frame refl refl
