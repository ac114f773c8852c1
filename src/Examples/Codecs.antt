-- ===== src/Examples/Codecs.antt =====
-- A codec of a few messages, which stands in for that of the crate rasn in the runs.
use mathlib.Core.Option.{some-injective}
use protect.Ldap.Message.{
  add_values, replace_values, ResultCode, success, unwilling_to_perform, other_code, LdapResult,
  ProtocolOp, simple, bind_request, bind_response, modify_request, modify_response, del_response,
  add_response, mod_dn_response, del_request, add_request, mod_dn_request, extended_request,
  extended_response, other_op, LdapMessage, Codec, IsFaithful,
}
use protect.Ldap.Requests.{start_tls_oid}
use protect.Prelude.{
  ℕ, ◌≡◌, refl, ap, sym, Option, none, some, map_option, List, [], ◌∷◌, Text, codes, nat_eq,
  if◌then◌else◌,
}

abbrev dn_result : ResultCode → Text → LdapResult
dn_result code reason = record {
  result_code = code;
  matched_dn = [];
  diagnostic_message = reason;
  referral = none;
}

abbrev read_op : ℕ → Text → ProtocolOp
read_op tag text =
    if nat_eq tag 1
    then modify_request (record {
      object = text;
      changes =
          record { operation = add_values; attr_type = codes "description"; vals = [] }
          ∷ record {
            operation = replace_values;
            attr_type = codes "userAccountControl";
            vals = codes "514" ∷ [];
          }
          ∷ [];
    })
    else if nat_eq tag 2
    then bind_request (record { name = text; authentication = simple (codes "pw") })
    else if nat_eq tag 3
    then extended_request (record { request_name = start_tls_oid; request_value = none })
    else if nat_eq tag 4
    then del_request text
    else if nat_eq tag 5
    then modify_response (dn_result unwilling_to_perform text)
    else if nat_eq tag 6
    then extended_response
        (record { result = dn_result success text; response_name = none; response_value = none })
    else if nat_eq tag 7
    then bind_response (dn_result success text)
    else if nat_eq tag 9
    then bind_response (dn_result unwilling_to_perform text)
    else if nat_eq tag 8
    then del_response (dn_result unwilling_to_perform text)
    else other_op tag

abbrev read : Text → Option LdapMessage
read [] = none
read (tag ∷ []) = none
read (tag ∷ id ∷ text) = some (record { message_id = id; protocol_op = read_op tag text })

-- The text of a result with this code, and with neither a matched DN nor a referral.
abbrev write_result : ResultCode → ResultCode → Text → Text → Option (List Text) → Option Text
write_result unwilling_to_perform unwilling_to_perform [] reason none = some reason
write_result success success [] reason none = some reason
write_result _ _ _ _ _ = none

write_result_lem :
    (want code : ResultCode) (matched reason : Text) (referral : Option (List Text)) (text : Text)
    → write_result want code matched reason referral ≡ some text
    → dn_result want text ≡ record {
      result_code = code;
      matched_dn = matched;
      diagnostic_message = reason;
      referral = referral;
    }
write_result_lem unwilling_to_perform unwilling_to_perform [] reason none text p =
    ap (dn_result unwilling_to_perform) (sym (some-injective _ _ p))
write_result_lem unwilling_to_perform unwilling_to_perform [] reason (some r) text p = absurd (cc)
write_result_lem unwilling_to_perform unwilling_to_perform (b ∷ m) reason referral text p =
    absurd (cc)
write_result_lem unwilling_to_perform success matched reason referral text p = absurd (cc)
write_result_lem unwilling_to_perform (other_code k) matched reason referral text p = absurd (cc)
write_result_lem success success [] reason none text p =
    ap (dn_result success) (sym (some-injective _ _ p))
write_result_lem success success [] reason (some r) text p = absurd (cc)
write_result_lem success success (b ∷ m) reason referral text p = absurd (cc)
write_result_lem success unwilling_to_perform matched reason referral text p = absurd (cc)
write_result_lem success (other_code k) matched reason referral text p = absurd (cc)
write_result_lem (other_code j) code matched reason referral text p = absurd (cc)

abbrev write_of : ResultCode → LdapResult → Option Text
write_of want r = write_result want r.result_code r.matched_dn r.diagnostic_message r.referral

abbrev prefixed : ℕ → ℕ → Option Text → Option Text
prefixed tag id text = map_option (λ t. tag ∷ id ∷ t) text

abbrev write_extended : ℕ → LdapResult → Option Text → Option Text → Option Text
write_extended id r none none = prefixed 6 id (write_of success r)
write_extended id r _ _ = none

abbrev write_op : ℕ → ProtocolOp → Option Text
write_op id (modify_response r) = prefixed 5 id (write_of unwilling_to_perform r)
write_op id (del_response r) = prefixed 8 id (write_of unwilling_to_perform r)
write_op id (extended_response e) = write_extended id e.result e.response_name e.response_value
write_op id _ = none

abbrev pub codec : Codec
codec = record {
  decode_message = read;
  encode_message = λ m. write_op m.message_id m.protocol_op;
  decode_passwd_modify = λ value. none;
}

prefixed_lem :
    (tag id : ℕ) (text : Option Text) (frame : Text)
    → prefixed tag id text ≡ some frame
    → (t : Text) × (text ≡ some t) × (frame ≡ tag ∷ id ∷ t)
prefixed_lem tag id none frame p = absurd (cc)
prefixed_lem tag id (some t) frame p = (t, refl, sym (some-injective _ _ p))

written :
    (tag id : ℕ) (want : ResultCode) (r : LdapResult) (frame : Text)
    → prefixed tag id (write_of want r) ≡ some frame
    → (t : Text) × (frame ≡ tag ∷ id ∷ t) × (dn_result want t ≡ r)
written tag id want r frame p =
    let (t, q, f) = prefixed_lem tag id (write_of want r) frame p in
    (t, f, write_result_lem want r.result_code r.matched_dn r.diagnostic_message r.referral t q)

extended_written :
    (id : ℕ) (r : LdapResult) (name value : Option Text) (frame : Text)
    → write_extended id r name value ≡ some frame
    → read frame
      ≡ some (record {
        message_id = id;
        protocol_op =
            extended_response (record { result = r; response_name = name; response_value = value });
      })
extended_written id r none none frame p =
    let (t, f, e) = written 6 id success r frame p in rw (f, ← e) refl
extended_written id r (some a) value frame p = absurd (cc)
extended_written id r none (some a) frame p = absurd (cc)

op_written :
    (id : ℕ) (op : ProtocolOp) (frame : Text)
    → write_op id op ≡ some frame
    → read frame ≡ some (record { message_id = id; protocol_op = op })
op_written id (modify_response r) frame p =
    let (t, f, e) = written 5 id unwilling_to_perform r frame p in rw (f, ← e) refl
op_written id (del_response r) frame p =
    let (t, f, e) = written 8 id unwilling_to_perform r frame p in rw (f, ← e) refl
op_written id (extended_response e) frame p =
    extended_written id e.result e.response_name e.response_value frame p
op_written id (bind_request _) frame p = absurd (cc)
op_written id (bind_response _) frame p = absurd (cc)
op_written id (modify_request _) frame p = absurd (cc)
op_written id (add_response _) frame p = absurd (cc)
op_written id (mod_dn_response _) frame p = absurd (cc)
op_written id (del_request _) frame p = absurd (cc)
op_written id (add_request _) frame p = absurd (cc)
op_written id (mod_dn_request _) frame p = absurd (cc)
op_written id (extended_request _) frame p = absurd (cc)
op_written id (other_op _) frame p = absurd (cc)

pub codec-IsFaithful : IsFaithful codec
codec-IsFaithful m frame p = op_written m.message_id m.protocol_op frame p
