-- ===== src/Ldap/StartTls/Negotiation.antt =====
-- When StartTLS is agreed with an upstream (src/connector/ldap.rs, `negotiate_starttls`).
use protect.Ldap.Frame.{Stream, FrameError, read_frame}
use protect.Ldap.Message.{
  ResultCode, success, unwilling_to_perform, other_code, ExtendedResponse, ProtocolOp, bind_request,
  bind_response, modify_request, modify_response, del_response, add_response, mod_dn_response,
  del_request, add_request, mod_dn_request, extended_request, extended_response, other_op,
  LdapMessage, Codec,
}
use protect.Ldap.StartTls.{
  StartTlsError, encoding, decoding, start_tls_request, or_else, reads, write_all, accept_code,
  accept_op, negotiate_starttls,
}
use protect.Prelude.{
  bind_inverse, ◌≡◌, ◌↔◌, refl, ap, ◌∙◌, Bool, true, false, Option, none, some, Result, ok, err,
  Text, bind_ok,
}

-- The request has been sent, and the first frame that comes back is an extended response of success.
abbrev pub Agreed : Codec → Bool → Stream → Text → Stream → Type 0
Agreed codec sends s request s' =
    (codec.encode_message start_tls_request ≡ some request)
    × (sends ≡ true)
    × ((frame : Text) × (m : LdapMessage) × (response : ExtendedResponse) × (read_frame s
          ≡ ok (some frame, s'))
        × (codec.decode_message frame ≡ some m)
        × (m.protocol_op ≡ extended_response response)
        × (response.result.result_code ≡ success))

or_else-inverse :
    {A : Type 0} (e : StartTlsError) (o : Option A) (a : A) → or_else e o ≡ ok a → o ≡ some a
or_else-inverse e none a p = absurd (cc)
or_else-inverse e (some b) a p = cc

reads-inverse :
    (r : Result (Option Text × Stream) FrameError) (frame : Text) (s : Stream)
    → reads r ≡ ok (frame, s)
    → r ≡ ok (some frame, s)
reads-inverse (err e) frame s p = absurd (cc)
reads-inverse (ok (none, t)) frame s p = absurd (cc)
reads-inverse (ok (some f, t)) frame s p = cc

accept_code-inverse : (code : ResultCode) (u : Unit {0}) → accept_code code ≡ ok u → code ≡ success
accept_code-inverse success u p = refl
accept_code-inverse unwilling_to_perform u p = absurd (cc)
accept_code-inverse (other_code k) u p = absurd (cc)

accept_op-inverse :
    (op : ProtocolOp) (u : Unit {0})
    → accept_op op ≡ ok u
    → (response : ExtendedResponse) × (op ≡ extended_response response)
      × (response.result.result_code ≡ success)
accept_op-inverse (extended_response r) u p =
    (r, refl, accept_code-inverse r.result.result_code u p)
accept_op-inverse (modify_request _) u p = absurd (cc)
accept_op-inverse (del_request _) u p = absurd (cc)
accept_op-inverse (add_request _) u p = absurd (cc)
accept_op-inverse (mod_dn_request _) u p = absurd (cc)
accept_op-inverse (extended_request _) u p = absurd (cc)
accept_op-inverse (bind_request _) u p = absurd (cc)
accept_op-inverse (bind_response _) u p = absurd (cc)
accept_op-inverse (modify_response _) u p = absurd (cc)
accept_op-inverse (del_response _) u p = absurd (cc)
accept_op-inverse (add_response _) u p = absurd (cc)
accept_op-inverse (mod_dn_response _) u p = absurd (cc)
accept_op-inverse (other_op _) u p = absurd (cc)

write_all-inverse : (sends : Bool) (u : Unit {0}) → write_all sends ≡ ok u → sends ≡ true
write_all-inverse true u p = refl
write_all-inverse false u p = absurd (cc)

negotiate-inverse :
    (codec : Codec) (sends : Bool) (s : Stream) (request : Text) (s' : Stream)
    → negotiate_starttls codec sends s ≡ ok (request, s')
    → Agreed codec sends s request s'
unfolding negotiate_starttls
negotiate-inverse codec sends s request s' p =
    let (sent, e, p₁) = bind_inverse _ _ _ p in
    let (u, wrote, p₂) = bind_inverse _ _ _ p₁ in
    let ((frame, t), got, p₃) = bind_inverse _ _ _ p₂ in
    let (m, decoded, p₄) = bind_inverse _ _ _ p₃ in
    let (v, fine, p₅) = bind_inverse _ _ _ p₄ in
    let (response, op, code) = accept_op-inverse m.protocol_op v fine in
    let same : sent ≡ request = cc in
    let rest : t ≡ s' = cc in
    (
      or_else-inverse encoding _ _ e ∙ ap some same,
      write_all-inverse sends u wrote,
      (
        frame,
        m,
        response,
        reads-inverse _ frame t got ∙ ap (λ x. ok (some frame, x)) rest,
        or_else-inverse decoding _ _ decoded,
        op,
        code,
      ),
    )

negotiate-Agreed :
    (codec : Codec) (sends : Bool) (s : Stream) (request : Text) (s' : Stream)
    → Agreed codec sends s request s'
    → negotiate_starttls codec sends s ≡ ok (request, s')
unfolding negotiate_starttls
negotiate-Agreed codec sends s request s'
      (encodes, wrote, (frame, m, response, got, decoded, op, code)) =
    bind_ok _ (ap (or_else encoding) encodes)
    ∙ (bind_ok _ (ap write_all wrote)
        ∙ (bind_ok _ (ap reads got)
            ∙ (bind_ok _ (ap (or_else decoding) decoded)
                ∙ bind_ok _ (ap accept_op op ∙ ap accept_code code))))

-- StartTLS is agreed exactly if the request has been sent and the first frame that comes back is an extended
-- response of success, and then TLS starts on what follows that frame.
pub negotiate_starttls_iff :
    (codec : Codec) (sends : Bool) (s : Stream) (request : Text) (s' : Stream)
    → (negotiate_starttls codec sends s ≡ ok (request, s')) ↔ Agreed codec sends s request s'
negotiate_starttls_iff codec sends s request s' =
    (negotiate-inverse codec sends s request s', negotiate-Agreed codec sends s request s')
