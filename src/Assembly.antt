-- ===== src/Assembly.antt =====
-- The configuration and what is built from it (src/config.rs, src/core/policy/config.rs, src/builder.rs,
-- src/lib.rs). Files and the format TOML are an interface, as are the parts of TLS.
pub mod Loading
use protect.Core.Identity.{SocketAddr}
use protect.Pool
use protect.Pool.{LoadBalanceStrategy, UpstreamPool}
use protect.Store.Opening.{Surroundings, Opened, open_policy}
use protect.Threshold.{ThresholdConfig, ThresholdPolicy}
use protect.Prelude.{
  ℕ, ◌*◌, Bool, true, false, Option, none, some, List, [], ◌∷◌, map, is_some, if◌then◌else◌, Result,
  ok, err, ◌>>=◌, Text, codes,
}

pub record MetricsConfig : Type 0 where
  pub listen_addr : SocketAddr

pub record HealthConfig : Type 0 where
  pub listen_addr : SocketAddr

pub record ClientCertConfig : Type 0 where
  pub cert_file : Text
  pub key_file : Text

pub record UpstreamTlsConfig : Type 0 where
  pub server_name : Text
  pub ca_file : Option Text
  pub client_cert : Option ClientCertConfig
  pub starttls : Bool

pub record ListenTlsConfig : Type 0 where
  pub cert_file : Text
  pub key_file : Text
  pub client_ca_file : Option Text

pub record PolicySource : Type 0 where
  pub file : Text

pub record ProxyConfig : Type 0 where
  pub listen_addr : SocketAddr
  pub upstream_addrs : List SocketAddr
  pub upstream_strategy : LoadBalanceStrategy
  pub upstream_failure_cooldown_secs : ℕ
  pub upstream_tls : Option UpstreamTlsConfig
  pub listen_tls : Option ListenTlsConfig
  pub listen_starttls : Option ListenTlsConfig
  pub max_connections : ℕ
  pub io_timeout_secs : ℕ
  pub shutdown_timeout_secs : ℕ
  pub policy : PolicySource

pub record Config : Type 0 where
  pub proxy : List ProxyConfig
  pub metrics : Option MetricsConfig
  pub health : Option HealthConfig

pub data ConfigError : Type 0 where
  config_unread : Text → Text → ConfigError
  config_unparsed : Text → Text → ConfigError
  no_proxies : Text → ConfigError

pub data PolicyConfigError : Type 0 where
  policy_unread : Text → Text → PolicyConfigError
  policy_unparsed : Text → Text → PolicyConfigError

-- What the program reads: the files, and the tables that TOML finds in their text, of a configuration before its
-- addresses are looked at, and of the list of policies.
pub record Files : Type 0 where
  pub read_to_string : Text → Result Text Text
  pub config_table : Text → Result Config Text
  pub policy_table : Text → Result (List ThresholdConfig) Text

abbrev pub named : {A E F : Type 0} → (E → F) → Result A E → Result A F
named f (ok a) = ok a
named f (err e) = err (f e)

unfoldable pub deserialize_non_empty_addrs : List SocketAddr → Result (List SocketAddr) Text
deserialize_non_empty_addrs [] = err (codes "upstream_addrs must have at least one address")
deserialize_non_empty_addrs (addr ∷ addrs) = ok (addr ∷ addrs)

-- `toml::from_str`: every entry's addresses are checked.
unfoldable pub deserialize_proxies : List ProxyConfig → Result (List ProxyConfig) Text
deserialize_proxies [] = ok []
deserialize_proxies (p ∷ proxies) = deserialize_non_empty_addrs p.upstream_addrs >>= (λ addrs.
    deserialize_proxies proxies >>= (λ rest. ok (record p { upstream_addrs = addrs } ∷ rest)))

abbrev pub refuse_empty : Text → Config → Result Config ConfigError
refuse_empty path config = elim config.proxy [
  | [] ↦ err (no_proxies path)
  | p ∷ proxies ↦ ok config
]

-- `Config::load`
unfoldable pub load_config : Files → Text → Result Config ConfigError
load_config files path = do
  raw ← named (config_unread path) (files.read_to_string path)
  table ← named (config_unparsed path) (files.config_table raw)
  proxies ← named (config_unparsed path) (deserialize_proxies table.proxy)
  refuse_empty path (record table { proxy = proxies })

-- An entry of a policy file becomes a policy, whose task of syncs is started if it has a store.
unfoldable pub build : Surroundings → ThresholdConfig → ThresholdPolicy × Bool
build s config = ((open_policy s config).policy, is_some (open_policy s config).policy.state)

unfoldable pub load_policies :
    Files → Surroundings → Text → Result (List (ThresholdPolicy × Bool)) PolicyConfigError
load_policies files s path = do
  raw ← named (policy_unread path) (files.read_to_string path)
  entries ← named (policy_unparsed path) (files.policy_table raw)
  ok (map (build s) entries)

pub record LdapConnector (UpstreamTls : Type 0) : Type 0 where
  pub pool : UpstreamPool
  pub upstream_tls : Option UpstreamTls
  pub upstream_starttls : Bool

abbrev pub connector_of :
    {UpstreamTls : Type 0}
    → Option UpstreamTls
    → Option UpstreamPool
    → Option (LdapConnector UpstreamTls)
connector_of tls none = none
connector_of tls (some pool) =
    some (record { pool = pool; upstream_tls = tls; upstream_starttls = false })

-- `none` is a panic.
unfoldable pub with_targets :
    {UpstreamTls : Type 0}
    → List SocketAddr
    → LoadBalanceStrategy
    → ℕ
    → Option UpstreamTls
    → Option (LdapConnector UpstreamTls)
with_targets addrs strategy cooldown tls = connector_of tls (Pool.new addrs strategy cooldown)

abbrev pub with_starttls :
    {UpstreamTls : Type 0} → Bool → LdapConnector UpstreamTls → LdapConnector UpstreamTls
with_starttls enabled connector = record connector { upstream_starttls = enabled }

pub record ConnectionLimits : Type 0 where
  pub max_connections : ℕ
  pub io_timeout : ℕ
  pub shutdown_timeout : ℕ

abbrev pub nanos_per_sec : ℕ
nanos_per_sec = 1_000_000_000

unfoldable pub default_limits : ConnectionLimits
default_limits = record {
  max_connections = 1024;
  io_timeout = 60 * nanos_per_sec;
  shutdown_timeout = 30 * nanos_per_sec;
}
