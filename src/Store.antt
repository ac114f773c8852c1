-- ===== src/Store.antt =====
-- What the threshold policy exchanges with the store of its history: `Anchor` of src/core/policy/store/mod.rs
-- and `merge_history_from_rows` of src/core/policy/threshold.rs. An `i64` of milliseconds is written as a natural
-- number, 2^63 more than its value, so that no time of the clock is below 0.
pub mod Opening
pub mod Lifetime
pub mod Times
pub mod Rows
pub mod Merging
pub mod Sync
use protect.Core.Identity.{Identity}
use protect.History
use protect.History.{History}
use protect.Pool.{sort_by_key}
use protect.Threshold.{ThresholdPolicy, PersistentState}
use protect.Prelude.{
  ℕ, ◌+◌, ◌-◌, ◌*◌, ◌/◌, ◌%◌, ◌^◌, Bool, true, false, ◌||◌, Option, none, some, List, [], ◌∷◌, ◌++◌,
  leb, nat_eq, get, text_equality, if◌then◌else◌, Text,
}

abbrev pub nanos_per_milli : ℕ
nanos_per_milli = 1_000_000

pub record Anchor : Type 0 where
  pub instant : ℕ
  pub epoch_millis : ℕ

unfoldable pub to_epoch_millis : Anchor → ℕ → ℕ
to_epoch_millis a instant =
    if leb a.instant instant
    then a.epoch_millis + (instant - a.instant) / nanos_per_milli
    else a.epoch_millis - (a.instant - instant) / nanos_per_milli

-- `Instant::checked_sub`, before the first instant of the clock.
abbrev checked_sub : ℕ → ℕ → Option ℕ
checked_sub x y = if leb y x then some (x - y) else none

unfoldable pub to_instant : Anchor → ℕ → Option ℕ
to_instant a epoch_millis =
    if leb a.epoch_millis epoch_millis
    then some (a.instant + (epoch_millis - a.epoch_millis) * nanos_per_milli)
    else checked_sub a.instant ((a.epoch_millis - epoch_millis) * nanos_per_milli)

-- `as i64` and the subtraction wrap around, as they do in a release build.
unfoldable pub epoch_millis_before : Anchor → ℕ → ℕ
epoch_millis_before a window =
    (a.epoch_millis + 2 ^ 64 - (window / nanos_per_milli) % 2 ^ 64) % 2 ^ 64

-- Whether an instant is in the window that ends now.
abbrev pub in_window : ℕ → ℕ → ℕ → Bool
in_window now window instant = leb (now - instant) window

-- `HashSet::contains`
unfoldable pub seen : ℕ → List ℕ → Bool
seen e [] = false
seen e (d ∷ ds) = nat_eq d e || seen e ds

abbrev pub known : Option (List ℕ) → List ℕ
known none = []
known (some timestamps) = timestamps

-- The existing instants that are in the window.
unfoldable pub kept : ℕ → ℕ → List ℕ → List ℕ
kept now window [] = []
kept now window (i ∷ is) =
    let rest = kept now window is in if in_window now window i then i ∷ rest else rest

unfoldable pub all_millis : Anchor → List ℕ → List ℕ
all_millis a [] = []
all_millis a (i ∷ is) = to_epoch_millis a i ∷ all_millis a is

-- One row that has not been seen: its instant, if it is in the window.
abbrev pub from_row : ℕ → ℕ → Option ℕ → Option ℕ
from_row now window none = none
from_row now window (some instant) = if in_window now window instant then some instant else none

-- The loop over the rows of an identity: what it pushes.
unfoldable pub from_rows : Anchor → ℕ → ℕ → List ℕ → List ℕ → List ℕ
from_rows a now window seen_millis [] = []
from_rows a now window seen_millis (e ∷ es) =
    let skipped = from_rows a now window seen_millis es in
    let added = from_rows a now window (e ∷ seen_millis) es in
    if seen e seen_millis
    then skipped
    else elim (from_row now window (to_instant a e)) [ none ↦ skipped | some i ↦ i ∷ added ]

-- What an identity's window becomes.
unfoldable pub merged : Anchor → ℕ → ℕ → List ℕ → List ℕ → List ℕ
merged a now window existing rows =
    let old = kept now window existing in
    sort_by_key (λ i. i) (old ++ from_rows a now window (all_millis a old) rows)

unfoldable pub merge_history_from_rows :
    History → Anchor → List (Identity × List ℕ) → ℕ → ℕ → History
merge_history_from_rows h a [] window now = h
merge_history_from_rows h a ((identity, timestamps) ∷ rows) window now =
    merge_history_from_rows
      (History.set h identity (merged a now window (known (get identity h.by_identity)) timestamps))
      a rows window now

-- The instants of an identity's rows that are in the window.
unfoldable pub row_instants : Anchor → ℕ → ℕ → List ℕ → List ℕ
row_instants a now window [] = []
row_instants a now window (e ∷ es) =
    let rest = row_instants a now window es in
    elim (from_row now window (to_instant a e)) [ none ↦ rest | some i ↦ i ∷ rest ]

abbrev set_unless_empty : History → Identity → List ℕ → History
set_unless_empty h identity [] = h
set_unless_empty h identity (i ∷ is) = History.set h identity (i ∷ is)

unfoldable pub rows_from : History → Anchor → List (Identity × List ℕ) → ℕ → ℕ → History
rows_from h a [] window now = h
rows_from h a ((identity, timestamps) ∷ rows) window now =
    rows_from
      (set_unless_empty h identity (sort_by_key (λ i. i) (row_instants a now window timestamps))) a
      rows window now

unfoldable pub rows_into_history : Anchor → List (Identity × List ℕ) → ℕ → ℕ → History
rows_into_history a rows window now = rows_from History.empty a rows window now

-- `sync_once` before it waits for the store: the events that it hands over, and the policy meanwhile.
unfoldable pub events_of : Anchor → List (Identity × ℕ) → List (Identity × ℕ)
events_of a [] = []
events_of a ((identity, instant) ∷ pending) =
    (identity, to_epoch_millis a instant) ∷ events_of a pending

abbrev drain_state : Anchor → Option PersistentState → List (Identity × ℕ) × Option PersistentState
drain_state a none = ([], none)
drain_state a (some s) = (events_of a s.pending, some (record { pending = [] }))

unfoldable pub drain : Anchor → ThresholdPolicy → List (Identity × ℕ) × ThresholdPolicy
drain a p = ((drain_state a p.state).0, record p { state = (drain_state a p.state).1 })

-- `sync_once` after the store has answered, or failed.
unfoldable pub fold :
    Anchor → ℕ → Option (List (Identity × List ℕ)) → ThresholdPolicy → ThresholdPolicy
fold a now none p = p
fold a now (some rows) p = record p {
  history =
      History.evict_stalest_until (merge_history_from_rows p.history a rows p.config.window now)
        p.config.max_tracked_identities;
}
