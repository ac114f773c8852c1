-- ===== src/Ldap/StartTls.antt =====
-- `negotiate_starttls` of src/connector/ldap.rs, on the stream of an upstream that has been dialed. Whether
-- the write goes through is the network's.
pub mod Negotiation
use protect.Ldap.Frame.{Stream, FrameError, read_frame}
use protect.Ldap.Message.{
  ResultCode, ExtendedRequest, ExtendedResponse, ProtocolOp, extended_request, extended_response,
  LdapMessage, Codec,
}
use protect.Ldap.Requests.{start_tls_oid}
use protect.Prelude.{
  ℕ, Bool, true, false, Option, none, some, List, Result, ok, err, ◌>>=◌, if◌then◌else◌, Text,
}
use protect.Ldap.Message.{success, unwilling_to_perform, other_code}

abbrev pub start_tls_upstream_message_id : ℕ
start_tls_upstream_message_id = 1

pub data StartTlsError : Type 0 where
  encoding sending closed decoding no_extended_response : StartTlsError
  reading : FrameError → StartTlsError
  refused : ResultCode → StartTlsError

abbrev pub start_tls_request : LdapMessage
start_tls_request = record {
  message_id = start_tls_upstream_message_id;
  protocol_op = extended_request (record { request_name = start_tls_oid; request_value = none });
}

abbrev pub or_else : {A : Type 0} → StartTlsError → Option A → Result A StartTlsError
or_else e none = err e
or_else e (some a) = ok a

abbrev pub reads : Result (Option Text × Stream) FrameError → Result (Text × Stream) StartTlsError
reads (err e) = err (reading e)
reads (ok (none, s)) = err closed
reads (ok (some frame, s)) = ok (frame, s)

abbrev pub write_all : Bool → Result (Unit {0}) StartTlsError
write_all true = ok tt
write_all false = err sending

abbrev pub accept_code : ResultCode → Result (Unit {0}) StartTlsError
accept_code success = ok tt
accept_code code = err (refused code)

abbrev pub accept_op : ProtocolOp → Result (Unit {0}) StartTlsError
accept_op (extended_response response) = accept_code response.result.result_code
accept_op _ = err no_extended_response

-- What was sent, and the stream on which TLS starts.
unfoldable pub negotiate_starttls : Codec → Bool → Stream → Result (Text × Stream) StartTlsError
negotiate_starttls codec sends s = do
  request ← or_else encoding (codec.encode_message start_tls_request)
  _ ← write_all sends
  (frame, s') ← reads (read_frame s)
  response ← or_else decoding (codec.decode_message frame)
  _ ← accept_op response.protocol_op
  ok (request, s')
