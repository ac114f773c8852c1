-- ===== src/Ldap/Dialing.antt =====
-- `dial` of src/connector/ldap.rs: a stream to one target. Whether it connects, what it answers and what TLS makes
-- of its bytes are the network's.
pub mod Security
use protect.Core.Net.{MaybeTlsStream, plain, tls}
use protect.Ldap.Frame.{Stream}
use protect.Ldap.Message.{Codec}
use protect.Ldap.StartTls.{StartTlsError, negotiate_starttls}
use protect.Ldap.StartTls.Negotiation.{Agreed, negotiate_starttls_iff}
use protect.Prelude.{
  ◌≡◌, ◌↔◌, refl, ap, sym, ◌∙◌, Bool, true, false, Option, none, some, Result, ok, err, ◌>>=◌, Text,
  bind_ok, if◌then◌else◌,
}

pub data DialError : Type 0 where
  connecting setting_nodelay handshake : DialError
  starttls : StartTlsError → DialError

-- What the target does: its stream if it connects, and whether it takes what is sent.
pub record Target : Type 0 where
  pub connects : Option Stream
  pub sets_nodelay : Bool
  pub sends : Bool

abbrev pub or_dial_error : {A : Type 0} → DialError → Option A → Result A DialError
or_dial_error e none = err e
or_dial_error e (some a) = ok a

abbrev pub nodelay_set : Bool → Result (Unit {0}) DialError
nodelay_set true = ok tt
nodelay_set false = err setting_nodelay

abbrev pub agreed : Result (Text × Stream) StartTlsError → Result (Option Text × Stream) DialError
agreed (ok (request, tcp)) = ok (some request, tcp)
agreed (err e) = err (starttls e)

-- `connect` is `UpstreamTls::connect`.
module _ {U T : Type 0} (codec : Codec) (connect : U → Stream → Option T) (target : Target) where
  -- What is written before TLS, and the stream on which TLS starts.
  abbrev pub before_tls : Bool → Stream → Result (Option Text × Stream) DialError
  before_tls true tcp = agreed (negotiate_starttls codec target.sends tcp)
  before_tls false tcp = ok (none, tcp)

  unfoldable pub secure :
      Option U → Bool → Stream → Result (MaybeTlsStream Stream T × Option Text) DialError
  secure none upstream_starttls tcp = ok (plain tcp, none)
  secure (some upstream_tls) upstream_starttls tcp = do
    (sent, tcp') ← before_tls upstream_starttls tcp
    session ← or_dial_error handshake (connect upstream_tls tcp')
    ok (tls session, sent)

  unfoldable pub dial : Option U → Bool → Result (MaybeTlsStream Stream T × Option Text) DialError
  dial upstream_tls upstream_starttls = do
    tcp ← or_dial_error connecting target.connects
    _ ← nodelay_set target.sets_nodelay
    secure upstream_tls upstream_starttls tcp
