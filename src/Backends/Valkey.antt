-- ===== src/Backends/Valkey.antt =====
-- The store in a Valkey server (src/core/policy/store/valkey.rs). The commands of the server are an interface; a
-- pipeline of commands is one of its operations. A score is a number that an `f64` holds exactly.
pub mod Bounding
pub mod Keys
pub mod Laws
pub mod Opening
pub mod Seen
pub mod Status
pub mod Steps
pub mod Syncing
pub mod Visiting
use protect.Backends.{Row}
use protect.Core.Identity.{Identity}
use protect.Pool.{sort_by_key}
use protect.Prelude.{
  ℕ, zero, suc, ◌+◌, ◌-◌, ◌%◌, ◌^◌, Bool, true, false, Option, none, some, List, [], ◌∷◌, ◌++◌, map,
  length, ltb, leb, nat_eq, get, insert, remove, text_equality, take, last, if◌then◌else◌, Result,
  ok, err, Text, codes, decimal,
}

-- A member of a sorted set with its score.
pub record Add : Type 0 where
  pub key : Text
  pub member : Text
  pub score : ℕ

-- What an operation of the server gives: its reply or its failure, and the server afterwards.
abbrev pub Reply : Type 0 → Type 0 → Type 0
Reply S A = Result A Text × S

abbrev pub and_then : {S A B : Type 0} → Reply S A → (A → S → Reply S B) → Reply S B
and_then (ok a, s) next = next a s
and_then (err e, s) next = (err e, s)

pub record Commands (S : Type 0) : Type 0 where
  pub connect : S → Reply S (Unit {0})
  -- `ZADD`, for each of them
  pub zadd_all : List Add → S → Reply S (Unit {0})
  -- `SCAN` of a cursor and a pattern, 200 keys at a time: the next cursor and some keys
  pub scan : ℕ → Text → S → Reply S (ℕ × List Text)
  -- `ZREMRANGEBYSCORE` below a bound, `ZRANGE ... WITHSCORES` of the rest, and `ZCARD`
  pub read_fresh : Text → ℕ → S → Reply S (List (Text × ℕ) × ℕ)
  pub del : Text → S → Reply S ℕ

pub record ValkeyTlsConfig : Type 0 where
  pub ca_file : Option Text
  pub client_cert_file : Option Text
  pub client_key_file : Option Text

pub record ValkeyStore : Type 0 where
  pub key_prefix : Text
  -- whether `conn` holds a connection
  pub conn : Bool
  pub member_seq : ℕ

unfoldable pub full_prefix : ValkeyStore → Text
full_prefix store = store.key_prefix ++ codes ":history:"

unfoldable pub history_key : ValkeyStore → Identity → Text
history_key store identity = full_prefix store ++ identity

-- `Display` of an `i64`.
unfoldable pub signed : ℕ → Text
signed t = if leb (2 ^ 63) t then decimal (t - 2 ^ 63) else codes "-" ++ decimal (2 ^ 63 - t)

unfoldable pub member_of : ℕ → ℕ → Text
member_of t seq = signed t ++ (codes "-" ++ decimal seq)

-- `fetch_add` of an `AtomicU64`
abbrev pub next_seq : ℕ → ℕ
next_seq seq = (seq + 1) % 2 ^ 64

unfoldable pub adds_of : ValkeyStore → ℕ → List Row → List Add
adds_of store seq [] = []
adds_of store seq ((identity, t) ∷ new_events) =
    record { key = history_key store identity; member = member_of t seq; score = t }
    ∷ adds_of store (next_seq seq) new_events

unfoldable pub seq_after : ℕ → List Row → ℕ
seq_after seq [] = seq
seq_after seq (event ∷ new_events) = seq_after (next_seq seq) new_events

unfoldable pub strip_prefix : Text → Text → Option Text
strip_prefix [] text = some text
strip_prefix (c ∷ prefix) [] = none
strip_prefix (c ∷ prefix) (d ∷ text) =
    let rest = strip_prefix prefix text in if nat_eq c d then rest else none

-- `timestamps.last().copied().unwrap_or(i64::MIN)`
abbrev pub last_or_min : Option ℕ → ℕ
last_or_min none = 0
last_or_min (some t) = t

unfoldable pub by_last_seen : List (Identity × List ℕ) → List Row
by_last_seen [] = []
by_last_seen ((identity, timestamps) ∷ rows) =
    (identity, last_or_min (last timestamps)) ∷ by_last_seen rows

-- What a key with its timestamps adds to the map.
abbrev pub take_identity :
    Option Identity → List ℕ → List (Identity × List ℕ) → List (Identity × List ℕ)
take_identity none timestamps rows = rows
take_identity (some identity) timestamps rows = insert identity timestamps rows

-- The store after its events have been numbered.
unfoldable pub numbered : ValkeyStore → List Row → ValkeyStore
numbered store new_events = record store {
  conn = true;
  member_seq = seq_after store.member_seq new_events;
}

module _ {S : Type 0} (commands : Commands S) where
  unfoldable pub connection : ValkeyStore → S → Reply S (Unit {0})
  connection store s = if store.conn then (ok tt, s) else commands.connect s

  -- The pipeline that is sent if there are events.
  unfoldable pub add_events : List Add → S → Reply S (Unit {0})
  add_events [] s = (ok tt, s)
  add_events (a ∷ adds) s = commands.zadd_all (a ∷ adds) s

  -- What one reply does to the scan.
  abbrev pub continue_scan :
      (ℕ → List Text → S → Option (Reply S (List Text)))
      → List Text
      → Reply S (ℕ × List Text)
      → Option (Reply S (List Text))
  continue_scan go keys (err e, s) = some (err e, s)
  continue_scan go keys (ok (next_cursor, batch), s) =
      if nat_eq next_cursor 0
      then some (ok (keys ++ batch), s)
      else go next_cursor (keys ++ batch) s

  -- The loop over the cursors, for at most `fuel` replies.
  unfoldable pub scan_loop : ℕ → Text → ℕ → List Text → S → Option (Reply S (List Text))
  scan_loop zero pattern cursor keys s = none
  scan_loop (suc fuel) pattern cursor keys s =
      continue_scan (scan_loop fuel pattern) keys (commands.scan cursor pattern s)

  -- One round of the loop over the keys.
  unfoldable pub visit :
      Text → ℕ → Text → List (Identity × List ℕ) → S → Reply S (List (Identity × List ℕ))
  visit prefix cutoff key rows s = and_then (commands.read_fresh key cutoff s) (λ read s'.
      if nat_eq read.1 0
      then (ok rows, (commands.del key s').1)
      else (ok (take_identity (strip_prefix prefix key) (map (λ r. r.1) read.0) rows), s'))

  unfoldable pub visit_all :
      Text → ℕ → List Text → List (Identity × List ℕ) → S → Reply S (List (Identity × List ℕ))
  visit_all prefix cutoff [] rows s = (ok rows, s)
  visit_all prefix cutoff (key ∷ keys) rows s =
      and_then (visit prefix cutoff key rows s) (visit_all prefix cutoff keys)

  -- The deletion of the identities beyond the limit; a failure is only logged.
  unfoldable pub evict_all :
      ValkeyStore → List Row → List (Identity × List ℕ) → S → List (Identity × List ℕ) × S
  evict_all store [] rows s = (rows, s)
  evict_all store ((identity, t) ∷ stalest) rows s =
      evict_all store stalest (remove identity rows) (commands.del (history_key store identity) s).1

  -- `iteration` is the order in which the map is iterated over.
  module _ (iteration : List Row → List Row) where
    unfoldable pub stalest : ℕ → List (Identity × List ℕ) → List Row
    stalest max_identities rows =
        take (length rows - max_identities)
          (sort_by_key (λ (r : Row). r.1) (iteration (by_last_seen rows)))

    unfoldable pub bound_identities :
        ValkeyStore → ℕ → List (Identity × List ℕ) → S → Reply S (List (Identity × List ℕ))
    bound_identities store max_identities rows s =
        let evicted = evict_all store (stalest max_identities rows) rows s in
        if ltb max_identities (length rows) then (ok evicted.0, evicted.1) else (ok rows, s)

    -- What follows the scan.
    unfoldable pub read_back :
        ValkeyStore → ℕ → ℕ → Reply S (List Text) → Reply S (List (Identity × List ℕ))
    read_back store cutoff max_identities scanned = and_then scanned (λ keys s.
        and_then (visit_all (full_prefix store) cutoff keys [] s)
          (bound_identities store max_identities))

    abbrev pub after_scan :
        ValkeyStore
        → ℕ
        → ℕ
        → Option (Reply S (List Text))
        → Option (Reply S (List (Identity × List ℕ)) × ValkeyStore)
    after_scan store cutoff max_identities none = none
    after_scan store cutoff max_identities (some scanned) =
        some (read_back store cutoff max_identities scanned, store)

    abbrev pub after_add :
        ℕ
        → ValkeyStore
        → ℕ
        → ℕ
        → Reply S (Unit {0})
        → Option (Reply S (List (Identity × List ℕ)) × ValkeyStore)
    after_add fuel store cutoff max_identities (err e, s) = some ((err e, s), store)
    after_add fuel store cutoff max_identities (ok u, s) =
        after_scan store cutoff max_identities
          (scan_loop fuel (full_prefix store ++ codes "*") 0 [] s)

    abbrev pub after_connect :
        ℕ
        → ValkeyStore
        → List Row
        → ℕ
        → ℕ
        → Reply S (Unit {0})
        → Option (Reply S (List (Identity × List ℕ)) × ValkeyStore)
    after_connect fuel store new_events cutoff max_identities (err e, s) = some ((err e, s), store)
    after_connect fuel store new_events cutoff max_identities (ok u, s) =
        after_add fuel (numbered store new_events) cutoff max_identities
          (add_events (adds_of store store.member_seq new_events) s)

    -- Nothing, if the server has not finished the scan after `fuel` replies.
    unfoldable pub sync :
        ℕ
        → ValkeyStore
        → List Row
        → ℕ
        → ℕ
        → S
        → Option (Reply S (List (Identity × List ℕ)) × ValkeyStore)
    sync fuel store new_events cutoff max_identities s =
        after_connect fuel store new_events cutoff max_identities (connection store s)
