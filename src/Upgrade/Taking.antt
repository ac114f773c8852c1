-- ===== src/Upgrade/Taking.antt =====
-- What StartTLS takes off the stream of a client (src/proxy.rs, `maybe_upgrade_to_tls`).
use protect.Core.Connector.{Connector}
use protect.Core.Net.{MaybeTlsStream, plain, tls}
use protect.Ldap.Frame.{Stream, FrameError, unexpected_eof, read_frame}
use protect.Ldap.Frame.Format.{IsFrame}
use protect.Ldap.Frame.Outcome.{NoFrame, Reason, Outcome, read_frame-Outcome}
use protect.Ldap.Frame.Reading.{Takes}
use protect.Prelude.{
  ◌<◌, ◌≡◌, ◌⊎◌, refl, All, Bool, true, false, Bool-cases, Option, none, some, Option-cases, [],
  Result, ok, err, Result-cases, ◌>>=◌, Text, inl, inr,
}
use protect.Upgrade.{
  UpgradeError, timed_out, sending, handshake, reading, refused, Network, Accept, Upgraded,
  with_timeout, read_result, answer_upgrade, upgrade_on, maybe_upgrade_to_tls,
}

-- What arrives on a stream without TLS are bytes.
abbrev pub IsBytes : {T : Type 0} → MaybeTlsStream Stream T → Type 0
IsBytes (plain s) = All (λ b. b < 256) s.bytes
IsBytes (tls session) = Unit {0}

module _ {E T : Type 0} (connector : Connector E) (network : Network) where
  -- A stream that ends before a frame is left as it is.
  abbrev pub Ends : Stream → Upgraded T → Type 0
  Ends s u =
      (s.bytes ≡ [])
      × (s.ending ≡ unexpected_eof)
      × (u ≡ record { stream = plain s; first_frame = none; written = none })

  -- A first frame that does not ask for TLS is handed on, with what follows it.
  abbrev pub Keeps : Stream → Upgraded T → Type 0
  Keeps s u =
      (frame : Text) × (s' : Stream) × IsFrame frame
      × Takes s frame s'
      × (connector.upgrade_request frame ≡ ok none)
      × (u ≡ record { stream = plain s'; first_frame = some frame; written = none })

  -- A request for TLS is answered, and the session is what TLS makes of all that follows it.
  abbrev pub Upgrades : Accept T → Stream → Upgraded T → Type 0
  Upgrades accept s u =
      (request : Text) × (response : Text) × (s' : Stream) × (session : T) × IsFrame request
      × Takes s request s'
      × (connector.upgrade_request request ≡ ok (some response))
      × (accept s' ≡ some session)
      × (u ≡ record { stream = tls session; first_frame = none; written = some response })

  abbrev pub Peeked : Accept T → Stream → Result (Upgraded T) (UpgradeError E) → Type 0
  Peeked accept s (ok u) = Ends s u ⊎ (Keeps s u ⊎ Upgrades accept s u)
  Peeked accept s (err timed_out) =
      (network.read_expires ≡ true)
      ⊎ ((network.write_expires ≡ true) ⊎ (network.accept_expires ≡ true))
  Peeked accept s (err sending) = network.sends ≡ false
  Peeked accept s (err handshake) =
      (request : Text) × (s' : Stream) × IsFrame request × Takes s request s' × (accept s' ≡ none)
  Peeked accept s (err (reading e)) = NoFrame s × Reason s e
  Peeked accept s (err (refused e)) =
      (frame : Text) × (s' : Stream) × IsFrame frame
      × Takes s frame s'
      × (connector.upgrade_request frame ≡ err e)

  abbrev pub Taken :
      Option (Accept T) → MaybeTlsStream Stream T → Result (Upgraded T) (UpgradeError E) → Type 0
  Taken (some accept) (plain s) r = Peeked accept s r
  Taken none client_stream r =
      r ≡ ok (record { stream = client_stream; first_frame = none; written = none })
  Taken (some accept) (tls session) r =
      r ≡ ok (record { stream = tls session; first_frame = none; written = none })

  answered :
      (accept : Accept T) (s s' : Stream) (frame response : Text)
      → IsFrame frame
      → Takes s frame s'
      → connector.upgrade_request frame ≡ ok (some response)
      → Peeked accept s (answer_upgrade connector network accept s' frame (some response))
  unfolding answer_upgrade with_timeout
  answered accept s s' frame response f takes e = elim (Bool-cases network.write_expires) [
    | inl late ↦ rw late (inr (inl refl))
    | inr soon ↦ elim (Bool-cases network.sends) [
      | inr fails ↦ rw (soon, fails) refl
      | inl sends ↦ elim (Bool-cases network.accept_expires) [
        | inl late ↦ rw (soon, sends, late) (inr (inr refl))
        | inr in_time ↦ elim (Option-cases (accept s')) [
          | inl fails ↦ rw (soon, sends, in_time, fails) (frame, s', f, takes, fails)
          | inr (session, agrees) ↦
              rw (soon, sends, in_time, agrees)
                (inr (inr (frame, response, s', session, f, takes, e, agrees, refl)))
        ]
      ]
    ]
  ]

  handed :
      (accept : Accept T) (s s' : Stream) (frame : Text)
      → IsFrame frame
      → Takes s frame s'
      → Peeked accept s (upgrade_on connector network accept (some frame) s')
  unfolding upgrade_on answer_upgrade
  handed accept s s' frame f takes = elim (Result-cases (connector.upgrade_request frame)) [
    | inr (e, refuses) ↦ rw refuses (frame, s', f, takes, refuses)
    | inl (none, passes) ↦ rw passes (inr (inl (frame, s', f, takes, passes, refl)))
    | inl (some response, asks) ↦ rw asks (answered accept s s' frame response f takes asks)
  ]

  peeked :
      (accept : Accept T) (s : Stream) (expires : Bool)
      (r : Result (Option Text × Stream) FrameError)
      → network.read_expires ≡ expires
      → Outcome s r
      → Peeked accept s (
          with_timeout expires (read_result {E = E} r) >>= λ p.
          upgrade_on connector network accept p.0 p.1)
  unfolding upgrade_on with_timeout
  peeked accept s true r late h = inl late
  peeked accept s false (err e) soon h = h
  peeked accept s false (ok (none, s')) soon (empty, ends, same) = inl (empty, ends, rw same refl)
  peeked accept s false (ok (some frame, s')) soon (f, takes) = handed accept s s' frame f takes

  -- Whatever the network does, if the stream of a client is one of bytes: without StartTLS, or over
  -- TLS, nothing is read or written. Else the first frame of the client is taken and no byte more;
  -- one that does not ask for TLS is handed to the relays with all that follows it; one that does
  -- is answered, and TLS, never the relays, gets every byte that follows it. An error has the cause
  -- that it names.
  pub maybe_upgrade_to_tls-Taken :
      (starttls : Option (Accept T)) (client_stream : MaybeTlsStream Stream T)
      → IsBytes client_stream
      → Taken starttls client_stream (maybe_upgrade_to_tls connector network starttls client_stream)
  unfolding maybe_upgrade_to_tls
  maybe_upgrade_to_tls-Taken none client_stream h = refl
  maybe_upgrade_to_tls-Taken (some accept) (tls session) h = refl
  maybe_upgrade_to_tls-Taken (some accept) (plain s) h =
      peeked accept s network.read_expires (read_frame s) refl (read_frame-Outcome s h)
