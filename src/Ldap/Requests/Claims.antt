-- ===== src/Ldap/Requests/Claims.antt =====
-- Which frames claim an identity, and when two claims are the same (src/connector/ldap.rs, `bind_request`).
use protect.Ldap.Dn.{cap_dn, max_dn_len, normalize_bind_dn}
use protect.Ldap.Message.{
  Authentication, simple, other_authentication, BindRequest, ProtocolOp, bind_request,
  bind_response, modify_request, modify_response, del_response, add_response, mod_dn_response,
  del_request, add_request, mod_dn_request, extended_request, extended_response, other_op,
  LdapMessage, Codec,
}
use protect.Ldap.Requests.{
  LdapError, decoding, or_error, read_bind_request, claim, claim_of, is_empty,
}
use protect.Ldap.Text.{Unicode, is_ascii, ascii_lower, to_lowercase}
use protect.Prelude.{
  ℕ, suc, ◌≡◌, ◌≢◌, ◌≤◌, ◌↔◌, refl, ap, ◌∙◌, sym, subst, true, false, ◌||◌, Option, none, some, [],
  ◌∷◌, Result, ok, err, ◌>>=◌, Bool-cases, Option-cases, inl, inr, arith, Text, map, length, leb,
}

-- A simple bind of a DN with a password, neither of them empty.
abbrev pub IsVerifiable : LdapMessage → Text → Type 0
IsVerifiable m name =
    (bind : BindRequest) × (password : Text) × (m.protocol_op ≡ bind_request bind)
    × (bind.authentication ≡ simple password)
    × (bind.name ≡ name)
    × (name ≢ [])
    × (password ≢ [])

is_empty_iff : (s : Text) → (is_empty s ≡ true) ↔ (s ≡ [])
is_empty_iff [] = ground arith
is_empty_iff (b ∷ s) = ground arith

full_together : (s t : Text) → s ≢ [] → t ≢ [] → (is_empty s || is_empty t) ≡ false
full_together [] t h k = absurd (h refl)
full_together (b ∷ s) [] h k = absurd (k refl)
full_together (b ∷ s) (c ∷ t) h k = ground arith

full_parts : (s t : Text) → (is_empty s || is_empty t) ≡ false → (s ≢ []) × (t ≢ [])
full_parts [] t h = ground arith
full_parts (b ∷ s) [] h = ground arith
full_parts (b ∷ s) (c ∷ t) h = ((λ e. absurd (cc)), λ e. absurd (cc))

module _ (unicode : Unicode) (codec : Codec) (hash_one : Text → ℕ) where
  -- What each result says of the frame.
  abbrev pub Claimed : Text → Result (Option (ℕ × Text)) LdapError → Type 0
  Claimed frame (err e) = (codec.decode_message frame ≡ none) × (e ≡ decoding)
  Claimed frame (ok none) =
      (m : LdapMessage) × (codec.decode_message frame ≡ some m)
      × ¬ ((name : Text) × IsVerifiable m name)
  Claimed frame (ok (some (id, dn))) =
      (m : LdapMessage) × (name : Text) × (codec.decode_message frame ≡ some m)
      × IsVerifiable m name
      × (id ≡ m.message_id)
      × (dn ≡ cap_dn hash_one (normalize_bind_dn unicode name))

  ClaimedBy : LdapMessage → Option (ℕ × Text) → Type 0
  ClaimedBy m none = ¬ ((name : Text) × IsVerifiable m name)
  ClaimedBy m (some (id, dn)) =
      (name : Text) × IsVerifiable m name
      × (id ≡ m.message_id)
      × (dn ≡ cap_dn hash_one (normalize_bind_dn unicode name))

  not_simple :
      (m : LdapMessage) (bind : BindRequest) (k : ℕ)
      → m.protocol_op ≡ bind_request bind
      → bind.authentication ≡ other_authentication k
      → ClaimedBy m none
  unfolding ClaimedBy
  not_simple m bind k op auth (name, (b, password, op', auth', named, full, keyed)) = absurd (cc)

  not_full :
      (m : LdapMessage) (bind : BindRequest) (password : Text)
      → m.protocol_op ≡ bind_request bind
      → bind.authentication ≡ simple password
      → (is_empty bind.name || is_empty password) ≡ true
      → ClaimedBy m none
  unfolding ClaimedBy
  not_full m bind password op auth empty (name, (b, pw, op', auth', named, full, full')) =
      let both = full_together b.name pw (λ e. full (sym named ∙ e)) full' in absurd (cc)

  bind_claim :
      (m : LdapMessage) (bind : BindRequest) (how : Authentication)
      → m.protocol_op ≡ bind_request bind
      → bind.authentication ≡ how
      → ClaimedBy m (claim unicode codec hash_one m.message_id bind how)
  unfolding claim ClaimedBy
  bind_claim m bind (other_authentication k) op auth = not_simple m bind k op auth
  bind_claim m bind (simple password) op auth =
      elim (Bool-cases (is_empty bind.name || is_empty password)) [
        | inl empty ↦ rw empty (not_full m bind password op auth empty)
        | inr full ↦
            let (named, keyed) = full_parts bind.name password full in
            rw full (bind.name, (bind, password, op, auth, refl, named, keyed), refl, refl)
      ]

  no_bind :
      (m : LdapMessage) (op : ProtocolOp)
      → m.protocol_op ≡ op
      → ClaimedBy m (claim_of unicode codec hash_one m op)
  unfolding ClaimedBy
  no_bind m (bind_request bind) e = bind_claim m bind bind.authentication e refl
  no_bind m (modify_request _) e = λ (name, (b, pw, op, auth, named, full, keyed)). absurd (cc)
  no_bind m (del_request dn) e = λ (name, (b, pw, op, auth, named, full, keyed)). absurd (cc)
  no_bind m (add_request dn) e = λ (name, (b, pw, op, auth, named, full, keyed)). absurd (cc)
  no_bind m (mod_dn_request dn) e = λ (name, (b, pw, op, auth, named, full, keyed)). absurd (cc)
  no_bind m (extended_request dn) e = λ (name, (b, pw, op, auth, named, full, keyed)). absurd (cc)
  no_bind m (bind_response _) e = λ (name, (b, pw, op, auth, named, full, keyed)). absurd (cc)
  no_bind m (modify_response _) e = λ (name, (b, pw, op, auth, named, full, keyed)). absurd (cc)
  no_bind m (del_response _) e = λ (name, (b, pw, op, auth, named, full, keyed)). absurd (cc)
  no_bind m (add_response _) e = λ (name, (b, pw, op, auth, named, full, keyed)). absurd (cc)
  no_bind m (mod_dn_response _) e = λ (name, (b, pw, op, auth, named, full, keyed)). absurd (cc)
  no_bind m (extended_response _) e = λ (name, (b, pw, op, auth, named, full, keyed)). absurd (cc)
  no_bind m (other_op _) e = λ (name, (b, pw, op, auth, named, full, keyed)). absurd (cc)

  claimed :
      (frame : Text) (m : LdapMessage) (c : Option (ℕ × Text))
      → codec.decode_message frame ≡ some m
      → ClaimedBy m c
      → Claimed frame (ok c)
  unfolding ClaimedBy
  claimed frame m none e h = (m, e, h)
  claimed frame m (some (id, dn)) e (name, v, i, d) = (m, name, e, v, i, d)

  -- A frame claims an identity exactly if it is a simple bind of a DN that is not empty with a password
  -- that is not empty, and then that DN in lower case, at most 256 bytes of it, under its message ID.
  pub read_bind_request-Claimed :
      (frame : Text) → Claimed frame (read_bind_request unicode codec hash_one frame)
  unfolding read_bind_request
  read_bind_request-Claimed frame = elim (Option-cases (codec.decode_message frame)) [
    | inl e ↦ rw e (e, refl)
    | inr (m, e) ↦
        subst
          (λ (o : Option LdapMessage). Claimed frame (
            or_error decoding o >>= λ message.
            ok (claim_of unicode codec hash_one message message.protocol_op)))
          (sym e) (claimed frame m _ e (no_bind m m.protocol_op refl))
  ]

length-map : (f : ℕ → ℕ) (s : Text) → length (map f s) ≡ length s
length-map f [] = refl
length-map f (b ∷ s) = ap suc (length-map f s)

-- Two ASCII DNs of at most 256 bytes are one identity exactly if they differ in case alone.
pub claimed_dn_iff :
    (unicode : Unicode) (hash_one : Text → ℕ) (s t : Text)
    → is_ascii s ≡ true
    → is_ascii t ≡ true
    → length s ≤ max_dn_len
    → length t ≤ max_dn_len
    → (cap_dn hash_one (normalize_bind_dn unicode s)
        ≡ cap_dn hash_one (normalize_bind_dn unicode t))
      ↔ (map ascii_lower s ≡ map ascii_lower t)
unfolding cap_dn normalize_bind_dn to_lowercase
claimed_dn_iff unicode hash_one s t h k short short' =
    let p : leb (length (map ascii_lower s)) max_dn_len ≡ true =
      ground (arith, length-map ascii_lower s) in
    let q : leb (length (map ascii_lower t)) max_dn_len ≡ true =
      ground (arith, length-map ascii_lower t) in
    rw (h, k, p, q) ((λ e. e), λ e. e)
