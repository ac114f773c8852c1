-- ===== src/Store/Opening.antt =====
-- `ThresholdPolicy::new` (src/core/policy/threshold.rs): the history that a policy starts with.
use protect.Backends.{Row}
use protect.Backends.Sqlite.{blocking_sync}
use protect.Backends.Valkey.{ValkeyTlsConfig}
use protect.Backends.Valkey.Opening.{ValkeyAuthConfig}
use protect.Core.Identity.{Identity}
use protect.History
use protect.History.{History}
use protect.Settings.{ValkeyClientCertConfig, StateDbConfig, sqlite, valkey, redact_valkey_url}
use protect.Store.{Anchor, epoch_millis_before, rows_into_history}
use protect.Threshold.{ThresholdConfig, ThresholdPolicy}
use protect.Prelude.{ℕ, Option, none, some, List, [], Result, ok, err, Text, map_option}

-- What happens when a store is opened: what the table of a SQLite file is, how its statements fare and order
-- their rows, whether a client of Valkey can be made, and what the clock shows.
pub record Surroundings : Type 0 where
  pub open_sqlite : Text → Result (List Row) Text
  pub fault : Option Text
  pub ascending : List Row → List Row
  pub descending : List Row → List Row
  pub open_valkey : Text → Text → ValkeyTlsConfig → ValkeyAuthConfig → Option Text
  pub anchor : Anchor
  pub now : ℕ

-- A policy, and the line that is logged with the URL of a store that cannot be opened.
pub record Opened : Type 0 where
  pub policy : ThresholdPolicy
  pub logged_url : Option Text

abbrev pub no_state : ThresholdConfig → Option Text → Opened
no_state config logged = record {
  policy = record { config = config; history = History.empty; state = none };
  logged_url = logged;
}

abbrev pub with_history : ThresholdConfig → History → Opened
with_history config history = record {
  policy = record { config = config; history = history; state = some (record { pending = [] }) };
  logged_url = none;
}

module _ (s : Surroundings) (config : ThresholdConfig) where
  -- The history that the rows of a table give, or an empty one if they cannot be read.
  abbrev pub warmed : Result (List (Identity × List ℕ)) Text → History
  warmed (err e) = History.empty
  warmed (ok rows) =
      History.evict_stalest_until (rows_into_history s.anchor rows config.window s.now)
        config.max_tracked_identities

  abbrev pub open_sqlite_policy : Result (List Row) Text → Opened
  open_sqlite_policy (err e) = no_state config none
  open_sqlite_policy (ok table) = with_history config (
      warmed
        (blocking_sync s.ascending s.descending s.fault []
          (epoch_millis_before s.anchor config.window) config.max_tracked_identities table).0)

  abbrev pub open_valkey_policy : Text → Option Text → Opened
  open_valkey_policy url none = with_history config History.empty
  open_valkey_policy url (some e) = no_state config (some (redact_valkey_url url))

  abbrev pub open_by : Option StateDbConfig → Opened
  open_by none = no_state config none
  open_by (some (sqlite path)) = open_sqlite_policy (s.open_sqlite path)
  open_by (some (valkey v)) = open_valkey_policy v.url (
      s.open_valkey v.url v.key_prefix
        (record {
          ca_file = v.ca_file;
          client_cert_file = map_option (λ (c : ValkeyClientCertConfig). c.cert_file) v.client_cert;
          client_key_file = map_option (λ (c : ValkeyClientCertConfig). c.key_file) v.client_cert;
        })
        (record { username = v.username; password = v.password }))

  unfoldable pub open_policy : Opened
  open_policy = open_by config.state_db
