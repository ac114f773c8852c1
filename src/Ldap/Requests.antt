-- ===== src/Ldap/Requests.antt =====
-- src/connector/ldap.rs: what `LdapConnector` reads in a frame, and the responses that it builds.
pub mod Bounds
pub mod Changes
pub mod Answers
pub mod Claims
use protect.Core.Action.{
  Action, OperationKind, account_lock, account_unlock, delete, create, password_reset, rename,
}
use protect.Core.Connector.{Connector}
use protect.Ldap.Dn.{cap_dn, normalize_bind_dn}
use protect.Ldap.Locks.{is_lock_attribute, classify_lock_write}
use protect.Ldap.Message.{
  ChangeOperation, add_values, replace_values, delete_values, other_change, Change, ModifyRequest,
  ResultCode, success, unwilling_to_perform, other_code, LdapResult, ExtendedRequest,
  ExtendedResponse, Authentication, simple, other_authentication, BindRequest, ProtocolOp,
  bind_request, bind_response, modify_request, modify_response, del_response, add_response,
  mod_dn_response, del_request, add_request, mod_dn_request, extended_request, extended_response,
  other_op, LdapMessage, PasswdModifyRequestValue, Codec,
}
use protect.Ldap.Text.{Unicode, from_utf8_lossy}
use protect.Prelude.{
  ℕ, Bool, true, false, not, ◌&&◌, ◌||◌, Option, none, some, List, [], ◌∷◌, Result, ok, err, ◌>>=◌,
  if◌then◌else◌, Text, codes, ◌==◌, text_equality, nat_eq, length,
}

abbrev pub start_tls_oid : Text
start_tls_oid = codes "1.3.6.1.4.1.1466.20037"

abbrev pub password_modify_oid : Text
password_modify_oid = codes "1.3.6.1.4.1.4203.1.11.1"

-- The errors, by their context.
pub data LdapError : Type 0 where
  decoding decoding_value encoding : LdapError
  no_rejection : ProtocolOp → LdapError

abbrev or_error : {A : Type 0} → LdapError → Option A → Result A LdapError
or_error e none = err e
or_error e (some a) = ok a

-- Whether a change is among `&[Add, Replace]`, or is `Delete`.
abbrev pub sets : ChangeOperation → Bool
sets add_values = true
sets replace_values = true
sets _ = false

abbrev pub deletes : ChangeOperation → Bool
deletes delete_values = true
deletes _ = false

-- `Iterator::find`
unfoldable pub find : (Change → Bool) → List Change → Option Change
find p [] = none
find p (c ∷ cs) = let rest = find p cs in if p c then some c else rest

abbrev pub unwrap_or : OperationKind → Option OperationKind → OperationKind
unwrap_or k none = k
unwrap_or k (some j) = j

abbrev pub bound_identity : Text
bound_identity = codes "(bound identity)"

abbrev pub is_empty : Text → Bool
is_empty s = nat_eq (length s) 0

module _ (unicode : Unicode) (codec : Codec) (hash_one : Text → ℕ) where
  -- Every action is of radius 1.
  abbrev pub ldap_action : OperationKind → Text → Action
  ldap_action kind target = record {
    backend = codes "ldap";
    operation = kind;
    target = target;
    blast_radius = 1;
  }

  unfoldable pub find_change : (ChangeOperation → Bool) → ModifyRequest → Option Change
  find_change ops modify =
      find (λ c. ops c.operation && is_lock_attribute unicode c.attr_type) modify.changes

  -- The operation from the first change that sets a lock attribute, and the first that deletes one.
  unfoldable pub lock_operation : Option Change → Option Change → Option OperationKind
  lock_operation (some c) deleted =
      some (unwrap_or account_lock (classify_lock_write unicode c.attr_type c.vals))
  lock_operation none (some c) = some account_unlock
  lock_operation none none = none

  abbrev action_on : Text → Option OperationKind → Option Action
  action_on dn none = none
  action_on dn (some kind) = some (ldap_action kind (cap_dn hash_one dn))

  unfoldable pub decode_modify : ModifyRequest → Option Action
  decode_modify modify =
      action_on modify.object
        (lock_operation (find_change sets modify) (find_change deletes modify))

  abbrev identity_target : Option Text → Text
  identity_target none = bound_identity
  identity_target (some identity) = cap_dn hash_one (from_utf8_lossy unicode identity)

  unfoldable pub password_target : Option Text → Result Text LdapError
  password_target none = ok bound_identity
  password_target (some value) = do
    parsed ← or_error decoding_value (codec.decode_passwd_modify value)
    ok (identity_target parsed.user_identity)

  unfoldable pub decode_extended : ExtendedRequest → Result (Option Action) LdapError
  decode_extended request =
      if not (request.request_name == password_modify_oid) then ok none else do
        target ← password_target request.request_value
        ok (some (ldap_action password_reset target))

  unfoldable pub decode_op : ProtocolOp → Result (Option Action) LdapError
  decode_op (modify_request modify) = ok (decode_modify modify)
  decode_op (del_request dn) = ok (some (ldap_action delete (cap_dn hash_one dn)))
  decode_op (add_request entry) = ok (some (ldap_action create (cap_dn hash_one entry)))
  decode_op (mod_dn_request entry) = ok (some (ldap_action rename (cap_dn hash_one entry)))
  decode_op (extended_request request) = decode_extended request
  decode_op _ = ok none

  unfoldable pub decode : Text → Result (Option Action) LdapError
  decode frame = do
    message ← or_error decoding (codec.decode_message frame)
    decode_op message.protocol_op

  -- A simple bind that names a DN with a password.
  unfoldable pub claim : ℕ → BindRequest → Authentication → Option (ℕ × Text)
  claim id bind (other_authentication k) = none
  claim id bind (simple password) =
      if is_empty bind.name || is_empty password
      then none
      else some (id, cap_dn hash_one (normalize_bind_dn unicode bind.name))

  abbrev claim_of : LdapMessage → ProtocolOp → Option (ℕ × Text)
  claim_of message (bind_request bind) = claim message.message_id bind bind.authentication
  claim_of message _ = none

  unfoldable pub read_bind_request : Text → Result (Option (ℕ × Text)) LdapError
  read_bind_request frame = do
    message ← or_error decoding (codec.decode_message frame)
    ok (claim_of message message.protocol_op)

  abbrev pub is_success : ResultCode → Bool
  is_success success = true
  is_success _ = false

  abbrev verdict : LdapMessage → ProtocolOp → Option (ℕ × Bool)
  verdict message (bind_response response) =
      some (message.message_id, is_success response.result_code)
  verdict message _ = none

  unfoldable pub read_bind_response : Text → Result (Option (ℕ × Bool)) LdapError
  read_bind_response frame = do
    message ← or_error decoding (codec.decode_message frame)
    ok (verdict message message.protocol_op)

  abbrev pub ldap_result : ResultCode → Text → LdapResult
  ldap_result code reason = record {
    result_code = code;
    matched_dn = [];
    diagnostic_message = reason;
    referral = none;
  }

  abbrev pub extended : LdapResult → ExtendedResponse
  extended result = record { result = result; response_name = none; response_value = none }

  unfoldable pub rejection_op : ProtocolOp → LdapResult → Result ProtocolOp LdapError
  rejection_op (modify_request m) result = ok (modify_response result)
  rejection_op (del_request dn) result = ok (del_response result)
  rejection_op (add_request entry) result = ok (add_response result)
  rejection_op (mod_dn_request entry) result = ok (mod_dn_response result)
  rejection_op (extended_request request) result = ok (extended_response (extended result))
  rejection_op other result = err (no_rejection other)

  unfoldable pub build_rejection : Text → Text → Result Text LdapError
  build_rejection frame reason = do
    message ← or_error decoding (codec.decode_message frame)
    op ← rejection_op message.protocol_op (ldap_result unwilling_to_perform reason)
    or_error encoding
        (codec.encode_message (record { message_id = message.message_id; protocol_op = op }))

  -- The response that confirms an upgrade.
  abbrev pub upgrade_response : ℕ → LdapMessage
  upgrade_response id = record {
    message_id = id;
    protocol_op = extended_response (extended (ldap_result success []));
  }

  unfoldable pub confirm : ℕ → ExtendedRequest → Result (Option Text) LdapError
  confirm id request = if not (request.request_name == start_tls_oid) then ok none else do
    response ← or_error encoding (codec.encode_message (upgrade_response id))
    ok (some response)

  abbrev upgrade : LdapMessage → ProtocolOp → Result (Option Text) LdapError
  upgrade message (extended_request request) = confirm message.message_id request
  upgrade message _ = ok none

  unfoldable pub upgrade_request : Text → Result (Option Text) LdapError
  unfolding confirm
  upgrade_request frame = do
    message ← or_error decoding (codec.decode_message frame)
    upgrade message message.protocol_op

  -- `impl Connector for LdapConnector`
  abbrev pub ldap_connector : Connector LdapError
  ldap_connector = record {
    decode = decode;
    build_rejection = build_rejection;
    upgrade_request = upgrade_request;
    bind_request = read_bind_request;
    bind_response = read_bind_response;
  }
