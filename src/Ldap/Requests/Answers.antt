-- ===== src/Ldap/Requests/Answers.antt =====
-- The responses that the proxy writes itself (src/connector/ldap.rs, `build_rejection` and
-- `upgrade_request`).
use protect.Core.Action.{Action}
use protect.Ldap.Message.{
  unwilling_to_perform, LdapResult, ExtendedRequest, ProtocolOp, bind_request, bind_response,
  modify_request, modify_response, del_response, add_response, mod_dn_response, del_request,
  add_request, mod_dn_request, extended_request, extended_response, other_op, LdapMessage, Codec,
  IsFaithful,
}
use protect.Ldap.Requests.{
  encoding, or_error, decode, decode_op, build_rejection, rejection_op, ldap_result,
  upgrade_request, upgrade_response, confirm, upgrade, start_tls_oid, decode_extended,
}
use protect.Ldap.Text.{Unicode}
use protect.Prelude.{
  ℕ, ◌≡◌, ◌⊎◌, refl, ◌∙◌, none, some, [], ok, err, Bool-cases, Option-cases, inl, inr, Text,
  text_eq, text_eq_iff, ◌==◌, text_equality,
}

-- The response that answers each request, as RFC 4511 pairs them.
pub data Answers (r : LdapResult) : ProtocolOp → ProtocolOp → Type 0 where
  modified : {m : _} → Answers r (modify_request m) (modify_response r)
  deleted : {dn : Text} → Answers r (del_request dn) (del_response r)
  added : {dn : Text} → Answers r (add_request dn) (add_response r)
  renamed : {dn : Text} → Answers r (mod_dn_request dn) (mod_dn_response r)
  extended_answer :
      {e : ExtendedRequest}
      → Answers r
          (extended_request e)
          (extended_response (record { result = r; response_name = none; response_value = none }))

module _ (unicode : Unicode) (codec : Codec) (hash_one : Text → ℕ) where
  -- An operation that is policed can be answered.
  rejection_op-Answers :
      (op : ProtocolOp) (a : Action) (r : LdapResult)
      → decode_op unicode codec hash_one op ≡ ok (some a)
      → (answer : ProtocolOp) × (rejection_op unicode codec hash_one op r ≡ ok answer)
        × Answers r op answer
  unfolding decode_op rejection_op
  rejection_op-Answers (modify_request m) a r p = (modify_response r, refl, modified)
  rejection_op-Answers (del_request dn) a r p = (del_response r, refl, deleted)
  rejection_op-Answers (add_request dn) a r p = (add_response r, refl, added)
  rejection_op-Answers (mod_dn_request dn) a r p = (mod_dn_response r, refl, renamed)
  rejection_op-Answers (extended_request e) a r p = (extended_response _, refl, extended_answer)
  rejection_op-Answers (bind_request b) a r p = absurd (cc)
  rejection_op-Answers (bind_response b) a r p = absurd (cc)
  rejection_op-Answers (modify_response b) a r p = absurd (cc)
  rejection_op-Answers (del_response b) a r p = absurd (cc)
  rejection_op-Answers (add_response b) a r p = absurd (cc)
  rejection_op-Answers (mod_dn_response b) a r p = absurd (cc)
  rejection_op-Answers (extended_response b) a r p = absurd (cc)
  rejection_op-Answers (other_op b) a r p = absurd (cc)

  decode_some :
      (frame : Text) (a : Action)
      → decode unicode codec hash_one frame ≡ ok (some a)
      → (m : LdapMessage) × (codec.decode_message frame ≡ some m)
        × (decode_op unicode codec hash_one m.protocol_op ≡ ok (some a))
  unfolding decode
  decode_some frame a p = elim (Option-cases (codec.decode_message frame)) [
    | inl e ↦ absurd (cc)
    | inr (m, e) ↦ (m, e, rw e at p)
  ]

  build_rejection_lem :
      (frame reason : Text) (m : LdapMessage) (answer : ProtocolOp)
      → codec.decode_message frame ≡ some m
      → rejection_op unicode codec hash_one m.protocol_op
          (ldap_result unicode codec hash_one unwilling_to_perform reason)
        ≡ ok answer
      → build_rejection unicode codec hash_one frame reason
        ≡ or_error encoding
            (codec.encode_message (record { message_id = m.message_id; protocol_op = answer }))
  unfolding build_rejection
  build_rejection_lem frame reason m answer e p = rw (e, p) refl

  encoded :
      (m : LdapMessage)
      → (or_error encoding (codec.encode_message m) ≡ err encoding)
        ⊎ ((frame : Text) × (or_error encoding (codec.encode_message m) ≡ ok frame)
            × (codec.encode_message m ≡ some frame))
  encoded m = elim (Option-cases (codec.encode_message m)) [
    | inl e ↦ inl (rw e refl)
    | inr (frame, e) ↦ inr (frame, rw e refl, e)
  ]

  -- Of an action that the policies block, the client can always be told: unless the encoder fails, the
  -- rejection is read back as the answer to this very request, with its message ID, the code
  -- unwillingToPerform and the reason.
  pub build_rejection-Answers :
      (frame reason : Text) (a : Action)
      → IsFaithful codec
      → decode unicode codec hash_one frame ≡ ok (some a)
      → (m : LdapMessage) × (codec.decode_message frame ≡ some m)
        × ((build_rejection unicode codec hash_one frame reason ≡ err encoding)
            ⊎ ((response : Text) × (answer : ProtocolOp) × (build_rejection unicode codec hash_one
                    frame reason
                  ≡ ok response)
                × (codec.decode_message response
                    ≡ some (record { message_id = m.message_id; protocol_op = answer }))
                × Answers
                    (record {
                      result_code = unwilling_to_perform;
                      matched_dn = [];
                      diagnostic_message = reason;
                      referral = none;
                    })
                    m.protocol_op
                    answer))
  build_rejection-Answers frame reason a faithful p =
      let (m, e, q) = decode_some frame a p in
      let (answer, r, answers) =
        rejection_op-Answers m.protocol_op a
          (ldap_result unicode codec hash_one unwilling_to_perform reason) q in
      let built = build_rejection_lem frame reason m answer e r in
      (
        m,
        e,
        elim (encoded (record { message_id = m.message_id; protocol_op = answer })) [
          | inl f ↦ inl (built ∙ f)
          | inr (response, f, g) ↦ inr (response, answer, built ∙ f, faithful _ response g, answers)
        ],
      )

  -- The requests for an upgrade.
  abbrev pub IsUpgrade : ProtocolOp → Type 0
  IsUpgrade op =
      (e : ExtendedRequest) × (op ≡ extended_request e) × (e.request_name ≡ start_tls_oid)

  confirm-some :
      (id : ℕ) (e : ExtendedRequest) (response : Text)
      → confirm unicode codec hash_one id e ≡ ok (some response)
      → (e.request_name ≡ start_tls_oid)
        × (codec.encode_message (upgrade_response unicode codec hash_one id) ≡ some response)
  unfolding confirm
  confirm-some id e response p = elim (Bool-cases (e.request_name == start_tls_oid)) [
    | inr other ↦ let q = rw other at p in absurd (cc)
    | inl named ↦
        let q = rw named at p in
        elim (Option-cases (codec.encode_message (upgrade_response unicode codec hash_one id))) [
          | inl none_ ↦ let r = rw none_ at q in absurd (cc)
          | inr (f, encodes) ↦
              let r = rw encodes at q in
              ((text_eq_iff e.request_name start_tls_oid).0 named, encodes ∙ cc)
        ]
  ]

  upgrade_op :
      (m : LdapMessage) (op : ProtocolOp) (response : Text)
      → upgrade unicode codec hash_one m op ≡ ok (some response)
      → IsUpgrade op
        × (codec.encode_message (upgrade_response unicode codec hash_one m.message_id)
            ≡ some response)
  unfolding confirm
  upgrade_op m (extended_request e) response p =
      let (named, encodes) = confirm-some m.message_id e response p in ((e, refl, named), encodes)
  upgrade_op m (modify_request _) response p = absurd (cc)
  upgrade_op m (del_request dn) response p = absurd (cc)
  upgrade_op m (add_request dn) response p = absurd (cc)
  upgrade_op m (mod_dn_request dn) response p = absurd (cc)
  upgrade_op m (bind_request b) response p = absurd (cc)
  upgrade_op m (bind_response b) response p = absurd (cc)
  upgrade_op m (modify_response b) response p = absurd (cc)
  upgrade_op m (del_response b) response p = absurd (cc)
  upgrade_op m (add_response b) response p = absurd (cc)
  upgrade_op m (mod_dn_response b) response p = absurd (cc)
  upgrade_op m (extended_response b) response p = absurd (cc)
  upgrade_op m (other_op b) response p = absurd (cc)

  upgrade-some :
      (frame response : Text)
      → upgrade_request unicode codec hash_one frame ≡ ok (some response)
      → (m : LdapMessage) × (codec.decode_message frame ≡ some m)
        × (upgrade unicode codec hash_one m m.protocol_op ≡ ok (some response))
  unfolding upgrade_request
  upgrade-some frame response p = elim (Option-cases (codec.decode_message frame)) [
    | inl e ↦ absurd (cc)
    | inr (m, e) ↦ (m, e, rw e at p)
  ]

  upgrade_passes :
      (frame : Text) (m : LdapMessage)
      → codec.decode_message frame ≡ some m
      → IsUpgrade m.protocol_op
      → decode unicode codec hash_one frame ≡ ok none
  unfolding decode decode_op decode_extended text_eq
  upgrade_passes frame m e (request, op, named) = rw (e, op, named) refl

  -- A request for StartTLS is no action, so that no policy sees it, and it is confirmed with success under
  -- its own message ID.
  pub upgrade_request-IsUpgrade :
      (frame response : Text)
      → IsFaithful codec
      → upgrade_request unicode codec hash_one frame ≡ ok (some response)
      → (decode unicode codec hash_one frame ≡ ok none)
        × ((m : LdapMessage) × (codec.decode_message frame ≡ some m)
            × IsUpgrade m.protocol_op
            × (codec.decode_message response
                ≡ some (upgrade_response unicode codec hash_one m.message_id)))
  upgrade_request-IsUpgrade frame response faithful p =
      let (m, e, q) = upgrade-some frame response p in
      let (is, encodes) = upgrade_op m m.protocol_op response q in
      (upgrade_passes frame m e is, (m, e, is, faithful _ response encodes))
