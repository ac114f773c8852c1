-- ===== src/Ldap/Requests/Bounds.antt =====
-- The size of what a frame can make the proxy keep (src/connector/ldap.rs, `cap_dn`).
use protect.Core.Action.{Action, OperationKind, password_reset}
use protect.Ldap.Dn.{cap_dn, marker, max_dn_len, normalize_bind_dn}
use protect.Ldap.Message.{
  Authentication, simple, other_authentication, BindRequest, ProtocolOp, bind_request,
  bind_response, modify_request, modify_response, del_response, add_response, mod_dn_response,
  del_request, add_request, mod_dn_request, extended_request, extended_response, other_op,
  LdapMessage, Codec, ExtendedRequest, PasswdModifyRequestValue,
}
use protect.Ldap.Requests.{
  LdapError, decoding, decoding_value, decode, decode_op, decode_modify, decode_extended,
  password_target, password_modify_oid, read_bind_request, claim, ldap_action, action_on, or_error,
  identity_target, claim_of, is_empty,
}
use protect.Ldap.Text.{Unicode, hex, hex_digit, from_utf8_lossy}
use protect.Prelude.{
  ℕ, zero, suc, ◌+◌, ◌/◌, ◌%◌, ◌≤◌, ◌≡◌, refl, not, ◌||◌, Option, none, some, [], ◌∷◌, ◌++◌, Result,
  ok, err, ◌>>=◌, Bool-cases, Text, codes, decimal, decimal_digits, ◌==◌, text_equality, length,
  length-append, leb, arith, inl, inr,
}

length-hex : (digits n : ℕ) → length (hex digits n) ≡ digits
unfolding hex
length-hex zero n = refl
length-hex (suc digits) n = omega (
  arith,
  length-append (hex digits (n / 16)) (hex_digit (n % 16) ∷ []),
  length-hex digits (n / 16),
)

length-decimal_digits : (fuel n : ℕ) → length (decimal_digits fuel n) ≤ fuel
unfolding decimal_digits
length-decimal_digits zero n = omega arith
length-decimal_digits (suc fuel) n = ground (
  arith,
  length-append (decimal_digits fuel (n / 10)) ((48 + n % 10) ∷ []),
  length-decimal_digits fuel (n / 10),
)

length-marker : (len hash : ℕ) → length (marker len hash) ≤ max_dn_len
unfolding decimal
length-marker len hash =
    let a : Text = codes "(oversized DN, " ++ decimal len in
    let b : Text = a ++ codes " bytes, hash " in
    let c : Text = b ++ hex 16 hash in
    omega (
      arith,
      length-append c (codes ")"),
      length-append b (hex 16 hash),
      length-append a (codes " bytes, hash "),
      length-append (codes "(oversized DN, ") (decimal len),
      length-hex 16 hash,
      length-decimal_digits 20 len,
    )

pub length-cap_dn : (hash_one : Text → ℕ) (dn : Text) → length (cap_dn hash_one dn) ≤ max_dn_len
unfolding cap_dn
length-cap_dn hash_one dn = elim (Bool-cases (leb (length dn) max_dn_len)) [
  | inl short ↦ rw short (ground arith)
  | inr long ↦ rw long (length-marker (length dn) (hash_one dn))
]

-- What an action may weigh.
abbrev pub IsBounded : Action → Type 0
IsBounded a = (length a.target ≤ max_dn_len) × (a.blast_radius ≡ 1)

abbrev pub IsBoundedResult : Result (Option Action) LdapError → Type 0
IsBoundedResult (ok (some a)) = IsBounded a
IsBoundedResult _ = Unit

abbrev IsShort : Result Text LdapError → Type 0
IsShort (ok t) = length t ≤ max_dn_len
IsShort (err e) = Unit

abbrev pub IsShortClaim : Result (Option (ℕ × Text)) LdapError → Type 0
IsShortClaim (ok (some (id, dn))) = length dn ≤ max_dn_len
IsShortClaim _ = Unit

module _ (unicode : Unicode) (codec : Codec) (hash_one : Text → ℕ) where
  action_on-IsBounded :
      (dn : Text) (kind : Option OperationKind)
      → IsBoundedResult (ok (action_on unicode codec hash_one dn kind))
  action_on-IsBounded dn none = tt
  action_on-IsBounded dn (some kind) = (length-cap_dn hash_one dn, refl)

  identity_target-length :
      (identity : Option Text)
      → length (identity_target unicode codec hash_one identity) ≤ max_dn_len
  identity_target-length none = omega arith
  identity_target-length (some s) = length-cap_dn hash_one (from_utf8_lossy unicode s)

  parsed-IsShort :
      (value : Option PasswdModifyRequestValue)
      → IsShort (
          or_error decoding_value value >>= λ parsed.
          ok (identity_target unicode codec hash_one parsed.user_identity))
  parsed-IsShort none = tt
  parsed-IsShort (some parsed) = identity_target-length parsed.user_identity

  password_target-IsShort :
      (value : Option Text) → IsShort (password_target unicode codec hash_one value)
  unfolding password_target
  password_target-IsShort none = omega arith
  password_target-IsShort (some value) = parsed-IsShort (codec.decode_passwd_modify value)

  reset-IsBounded :
      (target : Result Text LdapError)
      → IsShort target
      → IsBoundedResult
          (target >>= λ t. ok (some (ldap_action unicode codec hash_one password_reset t)))
  reset-IsBounded (ok t) h = (h, refl)
  reset-IsBounded (err e) h = tt

  decode_extended-IsBounded :
      (r : ExtendedRequest) → IsBoundedResult (decode_extended unicode codec hash_one r)
  unfolding decode_extended
  decode_extended-IsBounded r = elim (Bool-cases (not (r.request_name == password_modify_oid))) [
    | inl other ↦ rw other tt
    | inr reset ↦ rw reset (
        reset-IsBounded (password_target unicode codec hash_one r.request_value)
          (password_target-IsShort r.request_value))
  ]

  decode_op-IsBounded : (op : ProtocolOp) → IsBoundedResult (decode_op unicode codec hash_one op)
  unfolding decode_op decode_modify
  decode_op-IsBounded (modify_request m) = action_on-IsBounded m.object _
  decode_op-IsBounded (del_request dn) = (length-cap_dn hash_one dn, refl)
  decode_op-IsBounded (add_request dn) = (length-cap_dn hash_one dn, refl)
  decode_op-IsBounded (mod_dn_request dn) = (length-cap_dn hash_one dn, refl)
  decode_op-IsBounded (extended_request r) = decode_extended-IsBounded r
  decode_op-IsBounded (bind_request r) = tt
  decode_op-IsBounded (bind_response r) = tt
  decode_op-IsBounded (modify_response r) = tt
  decode_op-IsBounded (del_response r) = tt
  decode_op-IsBounded (add_response r) = tt
  decode_op-IsBounded (mod_dn_response r) = tt
  decode_op-IsBounded (extended_response r) = tt
  decode_op-IsBounded (other_op r) = tt

  decode-IsBoundedResult : (frame : Text) → IsBoundedResult (decode unicode codec hash_one frame)
  unfolding decode
  decode-IsBoundedResult frame = message_case (codec.decode_message frame)
    where
      message_case :
          (m : Option LdapMessage)
          → IsBoundedResult (
              or_error decoding m >>= λ message.
              decode_op unicode codec hash_one message.protocol_op)
      message_case none = tt
      message_case (some m) = decode_op-IsBounded m.protocol_op

  claim-IsShortClaim :
      (id : ℕ) (bind : BindRequest) (how : Authentication)
      → IsShortClaim (ok (claim unicode codec hash_one id bind how))
  unfolding claim
  claim-IsShortClaim id bind (other_authentication n) = tt
  claim-IsShortClaim id bind (simple password) =
      elim (Bool-cases (is_empty bind.name || is_empty password)) [
        | inl empty ↦ rw empty tt
        | inr full ↦ rw full (length-cap_dn hash_one (normalize_bind_dn unicode bind.name))
      ]

  claim_of-IsShortClaim :
      (m : LdapMessage) (op : ProtocolOp) → IsShortClaim (ok (claim_of unicode codec hash_one m op))
  claim_of-IsShortClaim m (bind_request bind) =
      claim-IsShortClaim m.message_id bind bind.authentication
  claim_of-IsShortClaim m (modify_request _) = tt
  claim_of-IsShortClaim m (del_request _) = tt
  claim_of-IsShortClaim m (add_request _) = tt
  claim_of-IsShortClaim m (mod_dn_request _) = tt
  claim_of-IsShortClaim m (extended_request _) = tt
  claim_of-IsShortClaim m (bind_response _) = tt
  claim_of-IsShortClaim m (modify_response _) = tt
  claim_of-IsShortClaim m (del_response _) = tt
  claim_of-IsShortClaim m (add_response _) = tt
  claim_of-IsShortClaim m (mod_dn_response _) = tt
  claim_of-IsShortClaim m (extended_response _) = tt
  claim_of-IsShortClaim m (other_op _) = tt

  read_bind_request-IsShortClaim :
      (frame : Text) → IsShortClaim (read_bind_request unicode codec hash_one frame)
  unfolding read_bind_request
  read_bind_request-IsShortClaim frame = message_case (codec.decode_message frame)
    where
      message_case :
          (m : Option LdapMessage)
          → IsShortClaim (
              or_error decoding m >>= λ message.
              ok (claim_of unicode codec hash_one message message.protocol_op))
      message_case none = tt
      message_case (some m) = claim_of-IsShortClaim m m.protocol_op

  -- Whatever a frame of up to 16 MiB holds, no action has a target, and no bind claims a DN, of more than
  -- 256 bytes, and every action is of radius 1.
  pub decode-IsBounded :
      (frame : Text)
      → IsBoundedResult (decode unicode codec hash_one frame)
        × IsShortClaim (read_bind_request unicode codec hash_one frame)
  decode-IsBounded frame = (decode-IsBoundedResult frame, read_bind_request-IsShortClaim frame)
