-- ===== src/Examples/Frames.antt =====
-- Frames and requests, on inputs like those of the tests in src/connector/ldap.rs.
use protect.Core.Action.{account_lock, account_unlock}
use protect.Examples.Codecs.{codec, codec-IsFaithful}
use protect.Ldap.Dn.{cap_dn, normalize_bind_dn}
use protect.Ldap.Frame.{
  unexpected_eof, too_long, read_exact, from_be_bytes, read_length, read_body, read_frame,
}
use protect.Ldap.Frame.Format.{IsFrame, long, read_frame-append}
use protect.Ldap.Frame.Outcome.{Outcome, read_frame-Outcome}
use protect.Ldap.Frame.Reading.{stream}
use protect.Ldap.Locks.{
  before_semicolon, base_of, names, is_lock_attribute, classify_flags, classify_flag, classify_text,
  classify_value, classify_lock_write,
}
use protect.Ldap.Locks.Spelling.{is_lock_attribute-spelling}
use protect.Ldap.Locks.Writes.{classify_lock_write-decimal}
use protect.Ldap.Message.{replace_values, ModifyRequest, unwilling_to_perform}
use protect.Ldap.Requests.{
  find, find_change, lock_operation, decode_modify, decode_extended, decode_op, decode, claim,
  read_bind_request, rejection_op, build_rejection, confirm, upgrade_request, encoding, ldap_action,
  ldap_result, upgrade_response,
}
use protect.Ldap.Requests.Answers.{
  Answers, build_rejection-Answers, IsUpgrade, upgrade_request-IsUpgrade,
}
use protect.Ldap.Requests.Bounds.{IsBoundedResult, IsShortClaim, decode-IsBounded}
use protect.Ldap.Requests.Changes.{Policed, decode_modify-Policed}
use protect.Ldap.Requests.Claims.{Claimed, read_bind_request-Claimed, claimed_dn_iff}
use protect.Ldap.Text.{
  Unicode, ascii_lower, to_lowercase, trim_start, trim_end, trim, from_utf8, parse_digits,
  parse_u32, hex,
}
use protect.Prelude.{
  ℕ, ◌≡◌, ◌↔◌, ◌⊎◌, refl, inl, true, false, none, some, List, [], ◌∷◌, ◌++◌, map, ok, err, Text,
  codes, text_eq, decimal, decimal_digits, arith,
}

unfoldable pub program : Unit {0}
unfolding read_exact from_be_bytes read_length read_body read_frame before_semicolon base_of names
    is_lock_attribute classify_flags classify_flag classify_text classify_value classify_lock_write
    to_lowercase trim_start trim_end trim from_utf8 parse_digits parse_u32 hex text_eq decimal
    decimal_digits find find_change lock_operation decode_modify decode_extended decode_op decode
    claim read_bind_request rejection_op build_rejection confirm upgrade_request cap_dn
    normalize_bind_dn
program = tt

-- Unicode as it is where only ASCII occurs.
abbrev pub ascii : Unicode
ascii = record { lowercase = λ s. s; trim = λ s. s; is_utf8 = λ s. false; from_utf8_lossy = λ s. s }

abbrev pub hash_one : Text → ℕ
hash_one s = 7

abbrev short_frame : List ℕ
short_frame = 48 ∷ 2 ∷ 7 ∷ 8 ∷ []

abbrev long_frame : List ℕ
long_frame = 48 ∷ 130 ∷ 0 ∷ 2 ∷ 7 ∷ 8 ∷ []

reads_short :
    read_frame (stream (short_frame ++ 9 ∷ []) unexpected_eof)
    ≡ ok (some short_frame, stream (9 ∷ []) unexpected_eof)
unfolding program
reads_short = refl

refuses_long :
    read_frame (stream (48 ∷ 132 ∷ 255 ∷ 255 ∷ 7 ∷ 8 ∷ 9 ∷ []) unexpected_eof)
    ≡ err (too_long 4294903560)
unfolding program
refuses_long = refl

long_frame-IsFrame : IsFrame long_frame
unfolding program
long_frame-IsFrame = record {
  tag = 48;
  header = 130 ∷ 0 ∷ 2 ∷ [];
  content = 7 ∷ 8 ∷ [];
  small = omega arith;
  sized = long (0 ∷ 2 ∷ []) (omega arith) (omega arith);
  joined = refl;
}

read_frame-append_example :
    read_frame (stream (long_frame ++ 9 ∷ []) unexpected_eof)
    ≡ ok (some long_frame, stream (9 ∷ []) unexpected_eof)
read_frame-append_example = read_frame-append long_frame (9 ∷ []) unexpected_eof long_frame-IsFrame

read_frame-Outcome_example :
    Outcome
      (stream (48 ∷ 5 ∷ 7 ∷ []) unexpected_eof)
      (read_frame (stream (48 ∷ 5 ∷ 7 ∷ []) unexpected_eof))
read_frame-Outcome_example =
    read_frame-Outcome (stream (48 ∷ 5 ∷ 7 ∷ []) unexpected_eof)
      (omega arith, (omega arith, (omega arith, tt)))

spelled : is_lock_attribute ascii (codes "1.2.840.113556.1.4.8;binary") ≡ true
unfolding program
spelled = refl

unlocks :
    classify_lock_write ascii (codes "UserAccountControl") (codes " +512 " ∷ [])
    ≡ some account_unlock
unfolding program
unlocks = refl

is_lock_attribute-spelling_example :
    (is_lock_attribute ascii (codes "nsAccountLock" ++ 59 ∷ codes "x")
      ≡ is_lock_attribute ascii (codes "NSACCOUNTLOCK"))
    × (classify_lock_write ascii (codes "nsAccountLock" ++ 59 ∷ codes "x") (codes "TRUE" ∷ [])
        ≡ classify_lock_write ascii (codes "NSACCOUNTLOCK") (codes "TRUE" ∷ []))
is_lock_attribute-spelling_example =
    is_lock_attribute-spelling ascii (codes "nsAccountLock") (codes "NSACCOUNTLOCK") (codes "x")
      (codes "TRUE" ∷ []) refl refl refl refl refl

classify_lock_write-decimal_example :
    classify_lock_write ascii (codes "userAccountControl") (decimal 514 ∷ []) ≡ some account_lock
unfolding program
classify_lock_write-decimal_example =
    classify_lock_write-decimal ascii (codes "userAccountControl") 514 [] (inl refl) (omega arith)

abbrev pub modification : Text
modification = 1 ∷ 5 ∷ codes "cn=bob"

decodes :
    decode ascii codec hash_one modification
    ≡ ok (some (ldap_action ascii codec hash_one account_lock (codes "cn=bob")))
unfolding program
decodes = refl

decode-IsBounded_example :
    IsBoundedResult (decode ascii codec hash_one modification)
    × IsShortClaim (read_bind_request ascii codec hash_one modification)
decode-IsBounded_example = decode-IsBounded ascii codec hash_one modification

abbrev disable : ModifyRequest
disable = record {
  object = codes "cn=bob";
  changes =
      record {
        operation = replace_values;
        attr_type = codes "nsAccountLock";
        vals = codes "true" ∷ [];
      }
      ∷ [];
}

decode_modify-Policed_example :
    Policed ascii codec hash_one disable (decode_modify ascii codec hash_one disable)
decode_modify-Policed_example = decode_modify-Policed ascii codec hash_one disable

build_rejection-Answers_example :
    (m : _) × (codec.decode_message modification ≡ some m)
    × ((build_rejection ascii codec hash_one modification (codes "no") ≡ err encoding)
        ⊎ ((response : Text) × (answer : _) × (build_rejection ascii codec hash_one modification
                (codes "no")
              ≡ ok response)
            × (codec.decode_message response
                ≡ some (record { message_id = m.message_id; protocol_op = answer }))
            × Answers
                (ldap_result ascii codec hash_one unwilling_to_perform (codes "no"))
                m.protocol_op
                answer))
unfolding program
build_rejection-Answers_example =
    build_rejection-Answers ascii codec hash_one modification (codes "no")
      (ldap_action ascii codec hash_one account_lock (codes "cn=bob")) codec-IsFaithful refl

upgrade_request-IsUpgrade_example :
    (decode ascii codec hash_one (3 ∷ 1 ∷ []) ≡ ok none)
    × ((m : _) × (codec.decode_message (3 ∷ 1 ∷ []) ≡ some m)
        × IsUpgrade ascii codec hash_one m.protocol_op
        × (codec.decode_message (6 ∷ 1 ∷ [])
            ≡ some (upgrade_response ascii codec hash_one m.message_id)))
unfolding program
upgrade_request-IsUpgrade_example =
    upgrade_request-IsUpgrade ascii codec hash_one (3 ∷ 1 ∷ []) (6 ∷ 1 ∷ []) codec-IsFaithful refl

read_bind_request-Claimed_example :
    Claimed ascii codec hash_one
      (2 ∷ 9 ∷ codes "CN=Alice")
      (read_bind_request ascii codec hash_one (2 ∷ 9 ∷ codes "CN=Alice"))
read_bind_request-Claimed_example =
    read_bind_request-Claimed ascii codec hash_one (2 ∷ 9 ∷ codes "CN=Alice")

claims :
    read_bind_request ascii codec hash_one (2 ∷ 9 ∷ codes "CN=Alice")
    ≡ ok (some (9, codes "cn=alice"))
unfolding program
claims = refl

claimed_dn_iff_example :
    (cap_dn hash_one (normalize_bind_dn ascii (codes "CN=Bob"))
      ≡ cap_dn hash_one (normalize_bind_dn ascii (codes "cn=BOB")))
    ↔ (map ascii_lower (codes "CN=Bob") ≡ map ascii_lower (codes "cn=BOB"))
claimed_dn_iff_example =
    claimed_dn_iff ascii hash_one (codes "CN=Bob") (codes "cn=BOB") refl refl (omega arith)
      (omega arith)
