-- ===== src/Upgrade.antt =====
-- `maybe_upgrade_to_tls` and `with_timeout` of src/proxy.rs: StartTLS with the client. Whether a deadline
-- passes, whether a write goes through and what TLS makes of the bytes of a client are the network's.
pub mod Taking
use protect.Core.Connector.{Connector}
use protect.Core.Net.{MaybeTlsStream, plain, tls}
use protect.Ldap.Frame.{Stream, FrameError, read_frame}
use protect.Prelude.{Bool, true, false, Option, none, some, Result, ok, err, ◌>>=◌, Text}

pub data UpgradeError (E : Type 0) : Type 0 where
  timed_out sending handshake : UpgradeError E
  reading : FrameError → UpgradeError E
  refused : E → UpgradeError E

-- What becomes of the three exchanges with the client, each against `io_timeout`.
pub record Network : Type 0 where
  pub read_expires : Bool
  pub write_expires : Bool
  pub accept_expires : Bool
  pub sends : Bool

-- `ListenTls::accept` on a stream: a session, or a failure of the handshake.
abbrev pub Accept : Type 0 → Type 0
Accept T = Stream → Option T

-- The stream and the frame for the relays, and the response that was written.
pub record Upgraded (T : Type 0) : Type 0 where
  pub stream : MaybeTlsStream Stream T
  pub first_frame : Option Text
  pub written : Option Text

-- `expires` says that the deadline passes first.
unfoldable pub with_timeout :
    {A E : Type 0} → Bool → Result A (UpgradeError E) → Result A (UpgradeError E)
with_timeout true result = err timed_out
with_timeout false result = result

abbrev pub read_result : {A E : Type 0} → Result A FrameError → Result A (UpgradeError E)
read_result (ok a) = ok a
read_result (err e) = err (reading e)

abbrev pub refusal : {A E : Type 0} → Result A E → Result A (UpgradeError E)
refusal (ok a) = ok a
refusal (err e) = err (refused e)

abbrev pub write_answer : {E : Type 0} → Bool → Result (Unit {0}) (UpgradeError E)
write_answer true = ok tt
write_answer false = err sending

abbrev pub accepted : {T E : Type 0} → Option T → Result T (UpgradeError E)
accepted none = err handshake
accepted (some session) = ok session

module _ {E T : Type 0} (connector : Connector E) (network : Network) where
  -- What is done with the first frame, once the connector has said whether it asks for TLS.
  unfoldable pub answer_upgrade :
      Accept T → Stream → Text → Option Text → Result (Upgraded T) (UpgradeError E)
  answer_upgrade accept tcp frame none =
      ok (record { stream = plain tcp; first_frame = some frame; written = none })
  answer_upgrade accept tcp frame (some response) = do
    _ ← with_timeout network.write_expires (write_answer network.sends)
    session ← with_timeout network.accept_expires (accepted (accept tcp))
    ok (record { stream = tls session; first_frame = none; written = some response })

  unfoldable pub upgrade_on : Accept T → Option Text → Stream → Result (Upgraded T) (UpgradeError E)
  upgrade_on accept none tcp =
      ok (record { stream = plain tcp; first_frame = none; written = none })
  upgrade_on accept (some frame) tcp = do
    request ← refusal (connector.upgrade_request frame)
    answer_upgrade accept tcp frame request

  unfoldable pub maybe_upgrade_to_tls :
      Option (Accept T) → MaybeTlsStream Stream T → Result (Upgraded T) (UpgradeError E)
  maybe_upgrade_to_tls (some accept) (plain tcp) = do
    (frame, tcp') ← with_timeout network.read_expires (read_result (read_frame tcp))
    upgrade_on accept frame tcp'
  maybe_upgrade_to_tls none client_stream =
      ok (record { stream = client_stream; first_frame = none; written = none })
  maybe_upgrade_to_tls (some accept) (tls session) =
      ok (record { stream = tls session; first_frame = none; written = none })
