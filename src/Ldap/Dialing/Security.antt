-- ===== src/Ldap/Dialing/Security.antt =====
-- When a dial of src/connector/ldap.rs gives a stream, and in which form.
use protect.Core.Net.{MaybeTlsStream, plain, tls}
use protect.Ldap.Frame.{Stream}
use protect.Ldap.Message.{Codec}
use protect.Ldap.StartTls.{StartTlsError}
use protect.Ldap.StartTls.Negotiation.{Agreed, negotiate_starttls_iff}
use protect.Prelude.{
  bind_inverse, ◌≡◌, ◌↔◌, refl, ap, sym, ◌∙◌, Bool, true, false, Option, none, some, Result, ok,
  err, Text, bind_ok,
}
use protect.Ldap.Dialing.{
  DialError, connecting, handshake, Target, or_dial_error, nodelay_set, agreed, secure, dial,
}

or_dial_error-inverse :
    {A : Type 0} (e : DialError) (o : Option A) (a : A) → or_dial_error e o ≡ ok a → o ≡ some a
or_dial_error-inverse e none a p = absurd (cc)
or_dial_error-inverse e (some b) a p = cc

nodelay_set-inverse : (sets : Bool) (u : Unit {0}) → nodelay_set sets ≡ ok u → sets ≡ true
nodelay_set-inverse true u p = refl
nodelay_set-inverse false u p = absurd (cc)

agreed-inverse :
    (r : Result (Text × Stream) StartTlsError) (sent : Option Text) (tcp : Stream)
    → agreed r ≡ ok (sent, tcp)
    → (request : Text) × (r ≡ ok (request, tcp)) × (sent ≡ some request)
agreed-inverse (err e) sent tcp p = absurd (cc)
agreed-inverse (ok (request, s)) sent tcp p = (request, cc, cc)

module _ {U T : Type 0} (codec : Codec) (connect : U → Stream → Option T) (target : Target) where
  -- Without settings for TLS the stream is the one that has connected; with them it is never in the clear,
  -- and TLS starts at once, or behind an agreed StartTLS.
  abbrev pub Secured : Option U → Bool → Stream → MaybeTlsStream Stream T → Option Text → Type 0
  Secured none upstream_starttls tcp stream sent = (stream ≡ plain tcp) × (sent ≡ none)
  Secured (some upstream_tls) false tcp stream sent =
      (session : T) × (connect upstream_tls tcp ≡ some session)
      × (stream ≡ tls session)
      × (sent ≡ none)
  Secured (some upstream_tls) true tcp stream sent =
      (request : Text) × (tcp' : Stream) × (session : T) × Agreed codec target.sends tcp request
        tcp'
      × (connect upstream_tls tcp' ≡ some session)
      × (stream ≡ tls session)
      × (sent ≡ some request)

  abbrev pub Dialed : Option U → Bool → MaybeTlsStream Stream T → Option Text → Type 0
  Dialed upstream_tls upstream_starttls stream sent =
      (tcp : Stream) × (target.connects ≡ some tcp)
      × (target.sets_nodelay ≡ true)
      × Secured upstream_tls upstream_starttls tcp stream sent

  secure-Secured :
      (upstream_tls : Option U) (upstream_starttls : Bool) (tcp : Stream)
      (stream : MaybeTlsStream Stream T) (sent : Option Text)
      → secure codec connect target upstream_tls upstream_starttls tcp ≡ ok (stream, sent)
      → Secured upstream_tls upstream_starttls tcp stream sent
  unfolding secure
  secure-Secured none upstream_starttls tcp stream sent p = (cc, cc)
  secure-Secured (some u) false tcp stream sent p =
      let (session, shaken, p₁) = bind_inverse _ _ _ p in
      (session, or_dial_error-inverse handshake _ _ shaken, cc, cc)
  secure-Secured (some u) true tcp stream sent p =
      let ((written, tcp'), negotiated, p₁) = bind_inverse _ _ _ p in
      let (session, shaken, p₂) = bind_inverse _ _ _ p₁ in
      let (request, agrees, is) = agreed-inverse _ written tcp' negotiated in
      let same : written ≡ sent = cc in
      (
        request,
        tcp',
        session,
        (negotiate_starttls_iff codec target.sends tcp request tcp').0 agrees,
        or_dial_error-inverse handshake _ _ shaken,
        cc,
        sym same ∙ is,
      )

  Secured-secure :
      (upstream_tls : Option U) (upstream_starttls : Bool) (tcp : Stream)
      (stream : MaybeTlsStream Stream T) (sent : Option Text)
      → Secured upstream_tls upstream_starttls tcp stream sent
      → secure codec connect target upstream_tls upstream_starttls tcp ≡ ok (stream, sent)
  unfolding secure
  Secured-secure none upstream_starttls tcp stream sent (is, unsent) = rw (is, unsent) refl
  Secured-secure (some u) false tcp stream sent (session, shaken, is, unsent) =
      rw (shaken, is, unsent) refl
  Secured-secure (some u) true tcp stream sent (request, tcp', session, agrees, shaken, is, all) =
      bind_ok _ (ap agreed ((negotiate_starttls_iff codec target.sends tcp request tcp').1 agrees))
      ∙ rw (shaken, is, all) refl

  -- Dialing a target gives a stream exactly if it has connected and, with settings for TLS, its
  -- handshake is done: at once, or with StartTLS after the request has been sent and the first
  -- frame that comes back is an extended response of success, on what follows that frame. So the
  -- stream is in the clear only without settings for TLS, and is then the one that has connected.
  pub dial_iff :
      (upstream_tls : Option U) (upstream_starttls : Bool) (stream : MaybeTlsStream Stream T)
      (sent : Option Text)
      → (dial codec connect target upstream_tls upstream_starttls ≡ ok (stream, sent))
        ↔ Dialed upstream_tls upstream_starttls stream sent
  unfolding dial
  dial_iff upstream_tls upstream_starttls stream sent = (
    (λ p.
        let (tcp, connected, p₁) = bind_inverse _ _ _ p in
        let (u, set, p₂) = bind_inverse _ _ _ p₁ in
        (
          tcp,
          or_dial_error-inverse connecting _ _ connected,
          nodelay_set-inverse _ u set,
          secure-Secured upstream_tls upstream_starttls tcp stream sent p₂,
        )),
    (λ (tcp, connected, set, secured).
        bind_ok _ (ap (or_dial_error connecting) connected)
        ∙ (bind_ok _ (ap nodelay_set set)
            ∙ Secured-secure upstream_tls upstream_starttls tcp stream sent secured)),
  )
