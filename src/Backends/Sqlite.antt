-- ===== src/Backends/Sqlite.antt =====
-- The store in a SQLite file (src/core/policy/store/sqlite.rs). The table is the list of its rows, in the order in
-- which they were inserted; a `usize` that is given to SQL is an `i64`.
pub mod Answer
pub mod Ranking
pub mod Syncing
use protect.Backends.{Row, has_row}
use protect.Core.Identity.{Identity}
use protect.Prelude.{
  ℕ, ◌^◌, max, Bool, true, false, Option, none, some, List, [], ◌∷◌, ◌++◌, ltb, get, insert,
  text_equality, drop, if◌then◌else◌, Result, ok, err, Text,
}

-- The statement that is run for each new event.
unfoldable pub insert_all : List Row → List Row → List Row
insert_all table [] = table
insert_all table (event ∷ new_events) = insert_all (table ++ (event ∷ [])) new_events

-- `DELETE ... WHERE timestamp_millis < cutoff`
unfoldable pub delete_stale : ℕ → List Row → List Row
delete_stale cutoff [] = []
delete_stale cutoff ((id, t) ∷ rows) =
    let rest = delete_stale cutoff rows in if ltb t cutoff then rest else (id, t) ∷ rest

-- `SELECT identity, MAX(timestamp_millis) ... GROUP BY identity`
abbrev pub later : ℕ → Option ℕ → ℕ
later t none = t
later t (some s) = max t s

unfoldable pub group_by_identity : List Row → List Row
group_by_identity [] = []
group_by_identity ((id, t) ∷ rows) =
    let groups = group_by_identity rows in insert id (later t (get id groups)) groups

-- `rank > max_identities`, where a limit that no `i64` holds is a negative one.
abbrev pub rank_limit : ℕ → ℕ
rank_limit max_identities = if ltb max_identities (2 ^ 63) then max_identities else 0

-- `DELETE ... WHERE identity IN ...`
unfoldable pub delete_identities : List Row → List Row → List Row
delete_identities dropped [] = []
delete_identities dropped ((id, t) ∷ rows) =
    let rest = delete_identities dropped rows in if has_row id dropped then rest else (id, t) ∷ rest

-- `rows_by_identity.entry(identity).or_default().push(timestamp_millis)`
abbrev pub pushed : ℕ → Option (List ℕ) → List ℕ
pushed t none = t ∷ []
pushed t (some ts) = ts ++ (t ∷ [])

unfoldable pub collect : List (Identity × List ℕ) → List Row → List (Identity × List ℕ)
collect rows_by_identity [] = rows_by_identity
collect rows_by_identity ((id, t) ∷ rows) =
    collect (insert id (pushed t (get id rows_by_identity)) rows_by_identity) rows

-- What SQLite makes of `ORDER BY`, upwards and downwards by the number of a row.
module _ (ascending descending : List Row → List Row) where
  unfoldable pub beyond_limit : ℕ → List Row → List Row
  beyond_limit max_identities table =
      drop (rank_limit max_identities) (descending (group_by_identity table))

  -- The transaction: the table that it commits.
  unfoldable pub committed : List Row → ℕ → ℕ → List Row → List Row
  committed new_events cutoff max_identities table =
      let recent = delete_stale cutoff (insert_all table new_events) in
      delete_identities (beyond_limit max_identities recent) recent

  -- With the error of the statement that fails, if one does: dropping a transaction rolls it back.
  unfoldable pub blocking_sync :
      Option Text → List Row → ℕ → ℕ → List Row → Result (List (Identity × List ℕ)) Text × List Row
  blocking_sync (some error) new_events cutoff max_identities table = (err error, table)
  blocking_sync none new_events cutoff max_identities table =
      let table' = committed new_events cutoff max_identities table in
      (ok (collect [] (ascending table')), table')
