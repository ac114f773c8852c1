-- ===== src/Ldap/Message.antt =====
-- The messages of RFC 4511 as src/connector/ldap.rs sees them through the crate rasn_ldap: of each
-- operation the fields that the code reads or writes, and one constructor for all the others. The encoding
-- is that of the crate rasn, an interface here.
use protect.Prelude.{ℕ, Option, some, ◌≡◌, List, Text}

pub data ChangeOperation : Type 0 where
  add_values replace_values delete_values : ChangeOperation
  other_change : ℕ → ChangeOperation

pub record Change : Type 0 where
  pub operation : ChangeOperation
  pub attr_type : Text
  pub vals : List Text

pub record ModifyRequest : Type 0 where
  pub object : Text
  pub changes : List Change

pub data ResultCode : Type 0 where
  success unwilling_to_perform : ResultCode
  other_code : ℕ → ResultCode

pub record LdapResult : Type 0 where
  pub result_code : ResultCode
  pub matched_dn : Text
  pub diagnostic_message : Text
  pub referral : Option (List Text)

pub record ExtendedRequest : Type 0 where
  pub request_name : Text
  pub request_value : Option Text

pub record ExtendedResponse : Type 0 where
  pub result : LdapResult
  pub response_name : Option Text
  pub response_value : Option Text

pub data Authentication : Type 0 where
  simple : Text → Authentication
  other_authentication : ℕ → Authentication

pub record BindRequest : Type 0 where
  pub name : Text
  pub authentication : Authentication

pub data ProtocolOp : Type 0 where
  bind_request : BindRequest → ProtocolOp
  bind_response : LdapResult → ProtocolOp
  modify_request : ModifyRequest → ProtocolOp
  modify_response del_response add_response mod_dn_response : LdapResult → ProtocolOp
  del_request add_request mod_dn_request : Text → ProtocolOp
  extended_request : ExtendedRequest → ProtocolOp
  extended_response : ExtendedResponse → ProtocolOp
  other_op : ℕ → ProtocolOp

pub record LdapMessage : Type 0 where
  pub message_id : ℕ
  pub protocol_op : ProtocolOp

-- RFC 3062's value of a password modification.
pub record PasswdModifyRequestValue : Type 0 where
  pub user_identity : Option Text
  pub old_passwd : Option Text
  pub new_passwd : Option Text

-- `rasn::ber`, with the derived decoder of the value; `none` is an error.
pub record Codec : Type 0 where
  pub decode_message : Text → Option LdapMessage
  pub encode_message : LdapMessage → Option Text
  pub decode_passwd_modify : Text → Option PasswdModifyRequestValue

-- What the crate promises: an encoded message is read back as it was.
abbrev pub IsFaithful : Codec → Type 0
IsFaithful codec =
    (m : LdapMessage) (frame : Text)
    → codec.encode_message m ≡ some frame
    → codec.decode_message frame ≡ some m
