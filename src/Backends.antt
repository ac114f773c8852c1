-- ===== src/Backends.antt =====
-- What the two stores of src/core/policy/store do in a sync, and one specification of it. The doc of the trait
-- `HistoryStore` (mod.rs) also prunes an event exactly at the cutoff, which both stores keep. A row is an
-- event of an identity with its milliseconds, written as in Store.
pub mod Rows
pub mod Sqlite
pub mod Valkey
use mathlib.Core.List.{Perm, filter_map}
use protect.Core.Identity.{Identity}
use protect.Pool.Tiers.{IsSortedBy}
use protect.Prelude.{
  ℕ, ◌≤◌, ◌<◌, max, Bool, true, false, Option, none, some, List, [], ◌∷◌, ◌++◌, ◌≡◌, length, All,
  ltb, get, ◌==◌, ◌||◌, text_equality, if◌then◌else◌,
}

abbrev pub Row : Type 0
Row = Identity × ℕ

-- The milliseconds of an identity's rows, in the order of the rows.
abbrev pub row_time : Identity → Row → Option ℕ
row_time id (j, t) = if j == id then some t else none

unfoldable pub times_of : Identity → List Row → List ℕ
times_of id rows = filter_map (row_time id) rows

unfoldable pub fresh : ℕ → List ℕ → List ℕ
fresh cutoff [] = []
fresh cutoff (t ∷ ts) = let rest = fresh cutoff ts in if ltb t cutoff then rest else t ∷ rest

unfoldable pub latest : List ℕ → ℕ
latest [] = 0
latest (t ∷ ts) = max t (latest ts)

abbrev pub IsAscending : List ℕ → Type 0
IsAscending ts = IsSortedBy (λ t. t) ts

-- What the answer says of an identity that has these events.
abbrev pub IsAnswer : Option (List ℕ) → List ℕ → Type 0
IsAnswer none ts = ts ≡ []
IsAnswer (some answer) ts = Perm answer ts × IsAscending answer × (0 < length ts)

-- The events of an identity that are not past the cutoff, once the new ones have been inserted.
abbrev pub surviving : ℕ → (Identity → List ℕ) → List Row → Identity → List ℕ
surviving cutoff before new_events id = fresh cutoff (before id ++ times_of id new_events)

-- The time of the last event, of an identity that has one.
abbrev pub last_seen : List ℕ → List ℕ
last_seen [] = []
last_seen (t ∷ ts) = latest (t ∷ ts) ∷ []

unfoldable pub has_row : Identity → List Row → Bool
has_row id [] = false
has_row id ((j, t) ∷ rows) = j == id || has_row id rows

-- A sync, of what a store holds for each identity before and after it, and of the answer: the new events are
-- inserted and those before the cutoff, none at it, are deleted; of the identities that are left, each with
-- its last event, at most `max_identities` are tracked, and if there are more, the least recently active ones
-- lose all they have; the answer is all that the store then holds.
pub record IsSync (cutoff max_identities : ℕ) (new_events : List Row)
    (before after : Identity → List ℕ) (answer : List (Identity × List ℕ)) : Type 0 where
  pub tracked : List Row
  pub dropped : List Row
  pub ranked :
      (id : Identity)
      → times_of id (tracked ++ dropped) ≡ last_seen (surviving cutoff before new_events id)
  pub bounded : length tracked ≤ max_identities
  pub full : 0 < length dropped → length tracked ≡ max_identities
  pub stalest : All (λ (d : Row). All (λ (t : Row). d.1 ≤ t.1) tracked) dropped
  pub kept :
      (id : Identity)
      → Perm (after id) (if has_row id dropped then [] else surviving cutoff before new_events id)
  pub answered : (id : Identity) → IsAnswer (get id answer) (after id)
