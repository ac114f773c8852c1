-- ===== src/Health.antt =====
-- The health endpoint (src/core/health.rs): one request of a probe, and the limit of connections.
pub mod Limit
pub mod Reading
pub mod Answers
pub mod Probes
use protect.Ldap.Text.{Unicode, is_ascii, is_space, from_utf8_lossy}
use protect.Prelude.{
  ℕ, zero, suc, ◌+◌, ◌-◌, Bool, true, false, ◌&&◌, ◌||◌, not, List, [], ◌∷◌, ◌++◌, Option, none,
  some, length, take, ltb, nat_eq, ◌==◌, text_equality, if◌then◌else◌, Text, codes, Result, ok, err,
  map,
}

abbrev pub buffer_len : ℕ
buffer_len = 512

-- `READ_TIMEOUT` in milliseconds: the deadline of the whole loop that reads.
abbrev pub read_timeout : ℕ
read_timeout = 5_000

abbrev pub max_probes : ℕ
max_probes = 64

abbrev crlf : Text
crlf = 13 ∷ 10 ∷ []

-- The two headers and the empty line of every response.
abbrev headers : Text
headers =
    crlf ++ (codes "content-length: 0" ++ (crlf ++ (codes "connection: close" ++ (crlf ++ crlf))))

unfoldable pub ok_response : Text
ok_response = codes "HTTP/1.1 200 OK" ++ headers

unfoldable pub unavailable_response : Text
unavailable_response = codes "HTTP/1.1 503 Service Unavailable" ++ headers

unfoldable pub not_found_response : Text
not_found_response = codes "HTTP/1.1 404 Not Found" ++ headers

-- How a connection goes on when it gives no more bytes: it is closed or an error occurs before the deadline, or
-- nothing happens until then.
pub data Ending : Type 0 where
  closed silent : Ending
  failed : Text → Ending

pub data ProbeError : Type 0 where
  io_error : Text → ProbeError
  timed_out : ProbeError

-- `windows(2).any(...)`
abbrev pub begins_with_newline : Text → Bool
begins_with_newline [] = false
begins_with_newline (b ∷ bytes) = nat_eq b 10

unfoldable pub has_crlf : Text → Bool
has_crlf [] = false
has_crlf (b ∷ bytes) = (nat_eq b 13 && begins_with_newline bytes) || has_crlf bytes

unfoldable pub is_read : Text → Bool
is_read buf = nat_eq (length buf) buffer_len || has_crlf buf

abbrev pub at_end : Text → Ending → Result Text ProbeError
at_end buf closed = ok buf
at_end buf silent = err timed_out
at_end buf (failed e) = err (io_error e)

-- The read loop. Each segment is when a read finds something, in milliseconds since the loop began, and what it
-- finds, as far as there is room for it; what does not fit is never read, since the buffer is full then.
unfoldable pub read_loop : Text → List (ℕ × Text) → Ending → Result Text ProbeError
read_loop buf [] ending = if is_read buf then ok buf else at_end buf ending
read_loop buf ((at, []) ∷ segments) ending =
    if is_read buf then ok buf else if ltb read_timeout at then err timed_out else ok buf
read_loop buf ((at, b ∷ segment) ∷ segments) ending =
    let rest = read_loop (buf ++ take (buffer_len - length buf) (b ∷ segment)) segments ending in
    if is_read buf then ok buf else if ltb read_timeout at then err timed_out else rest

-- `lines().next()`, of a text that is not empty: up to a line feed, with a carriage return before it.
unfoldable pub first_line : Text → Text
first_line [] = []
first_line (b ∷ bytes) =
    let rest = first_line bytes in
    if nat_eq b 10 || (nat_eq b 13 && begins_with_newline bytes) then [] else b ∷ rest

abbrev pub skip_spaces : Text → Text
skip_spaces [] = []
skip_spaces (b ∷ bytes) = if is_space b then skip_spaces bytes else b ∷ bytes

abbrev pub skip_word : Text → Text
skip_word [] = []
skip_word (b ∷ bytes) = if is_space b then b ∷ bytes else skip_word bytes

abbrev pub take_word : Text → Text
take_word [] = []
take_word (b ∷ bytes) = let rest = take_word bytes in if is_space b then [] else b ∷ rest

-- `split_whitespace().nth(1)` of ASCII, or nothing.
unfoldable pub second_word : Text → Text
second_word line = take_word (skip_spaces (skip_word (skip_spaces line)))

-- `unicode_word` is the second word of a line that is not ASCII.
unfoldable pub path_of : (Text → Text) → Text → Text
path_of unicode_word line = if is_ascii line then second_word line else unicode_word line

unfoldable pub response_to : Bool → Text → Text
response_to shutdown path =
    if path == codes "/healthz"
    then ok_response
    else if path == codes "/readyz"
    then (if shutdown then unavailable_response else ok_response)
    else not_found_response

-- The response that is written.
abbrev pub respond_to_read :
    Unicode → (Text → Text) → Bool → Result Text ProbeError → Result Text ProbeError
respond_to_read unicode unicode_word shutdown (err e) = err e
respond_to_read unicode unicode_word shutdown (ok buf) =
    ok (response_to shutdown (path_of unicode_word (first_line (from_utf8_lossy unicode buf))))

unfoldable pub handle_connection :
    Unicode → (Text → Text) → List (ℕ × Text) → Ending → Bool → Result Text ProbeError
handle_connection unicode unicode_word segments ending shutdown =
    respond_to_read unicode unicode_word shutdown (read_loop [] segments ending)

-- The accept loop: an `accept` that fails is tried again, and a connection that finds no permit is closed.
pub data Arrival : Type 0 where
  accepted failed_accept ended : Arrival

pub record Listener : Type 0 where
  pub available : ℕ
  pub running : ℕ

abbrev pub admit_probe : ℕ → Listener → Listener
admit_probe zero p = p
admit_probe (suc available) p = record { available = available; running = p.running + 1 }

abbrev pub end_probe : ℕ → Listener → Listener
end_probe zero p = p
end_probe (suc running) p = record { available = p.available + 1; running = running }

unfoldable pub probe_step : Listener → Arrival → Listener
probe_step p accepted = admit_probe p.available p
probe_step p failed_accept = p
probe_step p ended = end_probe p.running p

unfoldable pub serve_probes : Listener → List Arrival → Listener
serve_probes p [] = p
serve_probes p (a ∷ arrivals) = serve_probes (probe_step p a) arrivals

unfoldable pub open_probes : Listener
open_probes = record { available = max_probes; running = 0 }
