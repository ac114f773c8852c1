-- ===== src/Examples/Servers.antt =====
-- The accept loop and the StartTLS negotiation at concrete inputs.
use protect.Examples.Codecs.{codec}
use protect.Examples.Frames
use protect.Ldap.Frame.{Stream, unexpected_eof}
use protect.Ldap.Frame.Reading.{stream}
use protect.Ldap.Message.{Codec}
use protect.Ldap.StartTls.{negotiate_starttls}
use protect.Core.Net.{tls}
use protect.Ldap.Dialing.{Target, dial, secure}
use protect.Ldap.Dialing.Security.{Dialed, dial_iff}
use protect.Prelude.{
  ◌^◌, ◌-◌, ◌≤◌, ◌≡◌, ◌↔◌, refl, true, none, some, List, [], ◌∷◌, ok, arith, Option, ℕ,
}
use protect.Server.{
  Server, Event, incoming, finished, open_server, in_flight, handle, serve_loop, shut_down,
}
use protect.Server.Limits.{serve_loop-IsBalanced, visits, serve_loop-visits}

program : Unit {0}
unfolding Frames.program negotiate_starttls open_server handle serve_loop shut_down visits
program = tt

abbrev opened_two : Server
opened_two = record { available = 2; running = 0; ended = 0 }

abbrev busy : List Event
busy = incoming ∷ incoming ∷ incoming ∷ finished ∷ []

serve_loop-IsBalanced_example :
    ((serve_loop opened_two busy).running ≤ 2)
    × ((handle (serve_loop opened_two busy) incoming).running ≡ 2)
unfolding program
serve_loop-IsBalanced_example = serve_loop-IsBalanced 2 opened_two busy refl

-- More permits than a semaphore has.
panics : open_server (2 ^ 64 - 1) ≡ none
unfolding program
panics = refl

serve_loop-visits_example :
    (in_flight (serve_loop opened_two (visits 5)) ≡ 5)
    × ((serve_loop opened_two (visits 5)).running ≡ 0)
unfolding program
serve_loop-visits_example = serve_loop-visits 2 5 opened_two refl (omega arith)

abbrev three_running : Server
three_running = record { available = 1; running = 3; ended = 4 }

cut_off : shut_down three_running 2 ≡ record { joined = 6; aborted = 1; left = 0 }
unfolding program
cut_off = refl

-- A codec that writes every message as the frame of a request, and reads every frame as the confirmation.
abbrev upstream_codec : Codec
upstream_codec = record {
  decode_message = λ frame. codec.decode_message (6 ∷ 1 ∷ []);
  encode_message = λ m. some (48 ∷ 1 ∷ m.message_id ∷ []);
  decode_passwd_modify = λ value. none;
}

-- The confirmation, and the first bytes of TLS behind it.
abbrev confirmed : Stream
confirmed = stream (48 ∷ 1 ∷ 0 ∷ 22 ∷ 3 ∷ []) unexpected_eof

abbrev target : Target
target = record { connects = some confirmed; sets_nodelay = true; sends = true }

-- A handshake whose session is what has been left for it.
abbrev connect : Unit {0} → Stream → Option (List ℕ)
connect u s = some s.bytes

dial_iff_example :
    (dial upstream_codec connect target (some tt) true
      ≡ ok (tls (22 ∷ 3 ∷ []), some (48 ∷ 1 ∷ 1 ∷ [])))
    ↔ Dialed upstream_codec connect target
        (some tt)
        true
        (tls (22 ∷ 3 ∷ []))
        (some (48 ∷ 1 ∷ 1 ∷ []))
dial_iff_example =
    dial_iff upstream_codec connect target (some tt) true (tls (22 ∷ 3 ∷ []))
      (some (48 ∷ 1 ∷ 1 ∷ []))

dialed :
    dial upstream_codec connect target (some tt) true
    ≡ ok (tls (22 ∷ 3 ∷ []), some (48 ∷ 1 ∷ 1 ∷ []))
unfolding program secure dial
dialed = refl

negotiated :
    negotiate_starttls upstream_codec true confirmed
    ≡ ok (48 ∷ 1 ∷ 1 ∷ [], stream (22 ∷ 3 ∷ []) unexpected_eof)
unfolding program
negotiated = refl
