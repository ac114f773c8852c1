-- ===== src/Program.antt =====
-- The program around the proxies (src/lib.rs): its start, and the reloads of its policy files. What TLS makes
-- of its files, and what the exporter of the metrics and a bind give, are an interface.
pub mod Reloading
pub mod Starting
use protect.Builder.{
  Error, config_error, policy_error, tls_error, metrics_error, health_error, missing_connector,
  Running, ProxyBuilder, Listener, new_builder, set_listen_tls, set_listen_starttls, set_connector,
  policies_reloadable, set_limits, set_shutdown, serve,
}
use protect.Assembly.{
  MetricsConfig, HealthConfig, ClientCertConfig, UpstreamTlsConfig, ListenTlsConfig, ProxyConfig,
  Config, ConfigError, PolicyConfigError, Files, named, load_config, load_policies, LdapConnector,
  with_targets, with_starttls, ConnectionLimits, default_limits, nanos_per_sec,
}
use protect.Core.Identity.{SocketAddr}
use protect.Store.Opening.{Surroundings}
use protect.Threshold.{ThresholdPolicy}
use protect.Prelude.{
  ℕ, ◌*◌, Bool, true, false, Option, none, some, List, [], ◌∷◌, ◌++◌, map, map_option, Result, ok,
  err, ◌>>=◌, Text, if◌then◌else◌,
}

pub record TlsFiles (U L : Type 0) : Type 0 where
  pub upstream : Text → Option Text → Option (Text × Text) → Result U Text
  pub listen : Text → Text → Option Text → Result L Text

-- `Option::map(...).transpose()?`
abbrev pub transpose : {A B : Type 0} → (A → Result B Text) → Option A → Result (Option B) Error
transpose make none = ok none
transpose make (some a) = named tls_error (make a) >>= (λ b. ok (some b))

abbrev pub set_if_some : {A B : Type 0} → (A → B → B) → Option A → B → B
set_if_some set none b = b
set_if_some set (some a) b = set a b

abbrev pub asks_starttls : Option UpstreamTlsConfig → Bool
asks_starttls none = false
asks_starttls (some tls) = tls.starttls

unfoldable pub limits_of : ProxyConfig → ConnectionLimits
limits_of p = record {
  max_connections = p.max_connections;
  io_timeout = p.io_timeout_secs * nanos_per_sec;
  shutdown_timeout = p.shutdown_timeout_secs * nanos_per_sec;
}

module _ {U L : Type 0} (tls : TlsFiles U L) (files : Files) (s : Surroundings) where
  abbrev pub upstream_tls_of : UpstreamTlsConfig → Result U Text
  upstream_tls_of t =
      tls.upstream t.server_name t.ca_file
        (map_option (λ (c : ClientCertConfig). (c.cert_file, c.key_file)) t.client_cert)

  abbrev pub listen_tls_of : ListenTlsConfig → Result L Text
  listen_tls_of t = tls.listen t.cert_file t.key_file t.client_ca_file

  unfoldable pub assemble :
      ProxyConfig
      → Option L
      → Option L
      → List Running
      → LdapConnector U
      → ProxyBuilder (LdapConnector U) L
  assemble p listen_tls listen_starttls policies connector =
      let b = set_connector connector (new_builder p.listen_addr) in
      let c = set_shutdown (set_limits (limits_of p) (policies_reloadable policies b)) in
      set_if_some set_listen_starttls listen_starttls (set_if_some set_listen_tls listen_tls c)

  -- The files of a listener, which are read once its connector has been made.
  unfoldable pub with_files :
      ProxyConfig → LdapConnector U → Result (ProxyBuilder (LdapConnector U) L × List Running) Error
  with_files p connector = do
    listen_tls ← transpose listen_tls_of p.listen_tls
    listen_starttls ← transpose listen_tls_of p.listen_starttls
    policies ← named policy_error (load_policies files s p.policy.file)
    ok (assemble p listen_tls listen_starttls policies connector, policies)

  -- `none` is the panic of a pool without a target.
  abbrev pub with_connector :
      ProxyConfig
      → Option (LdapConnector U)
      → Option (Result (ProxyBuilder (LdapConnector U) L × List Running) Error)
  with_connector p none = none
  with_connector p (some connector) =
      some (with_files p (with_starttls (asks_starttls p.upstream_tls) connector))

  abbrev pub with_upstream :
      ProxyConfig
      → Result (Option U) Error
      → Option (Result (ProxyBuilder (LdapConnector U) L × List Running) Error)
  with_upstream p (err e) = some (err e)
  with_upstream p (ok upstream_tls) = with_connector p (
      with_targets p.upstream_addrs p.upstream_strategy
        (p.upstream_failure_cooldown_secs * nanos_per_sec) upstream_tls)

  unfoldable pub build_proxy :
      ProxyConfig → Option (Result (ProxyBuilder (LdapConnector U) L × List Running) Error)
  build_proxy p = with_upstream p (transpose upstream_tls_of p.upstream_tls)

  -- The builders in the order of the configuration, each with the file and the value of its channel.
  abbrev pub add_built :
      Text
      → ProxyBuilder (LdapConnector U) L × List Running
      → Option (Result (List (ProxyBuilder (LdapConnector U) L) × List (Text × List Running)) Error)
      → Option (Result (List (ProxyBuilder (LdapConnector U) L) × List (Text × List Running)) Error)
  add_built file built none = none
  add_built file built (some (err e)) = some (err e)
  add_built file (builder, policies) (some (ok (builders, targets))) =
      some (ok (builder ∷ builders, (file, policies) ∷ targets))

  abbrev pub unless_failed :
      Text
      → Option (Result (ProxyBuilder (LdapConnector U) L × List Running) Error)
      → Option (Result (List (ProxyBuilder (LdapConnector U) L) × List (Text × List Running)) Error)
      → Option (Result (List (ProxyBuilder (LdapConnector U) L) × List (Text × List Running)) Error)
  unless_failed file none rest = none
  unless_failed file (some (err e)) rest = some (err e)
  unless_failed file (some (ok built)) rest = add_built file built rest

  unfoldable pub build_all :
      List ProxyConfig
      → Option (Result (List (ProxyBuilder (LdapConnector U) L) × List (Text × List Running)) Error)
  build_all [] = some (ok ([], []))
  build_all (p ∷ proxies) = unless_failed p.policy.file (build_proxy p) (build_all proxies)

  -- The start of `run_with_config`, up to the tasks: nothing is served before all of it has succeeded. `exporter` and
  -- `bind` are what the two endpoints give.
  abbrev pub unless_err :
      {A : Type 0} → Result (Unit {0}) Error → Option (Result A Error) → Option (Result A Error)
  unless_err (err e) rest = some (err e)
  unless_err (ok u) rest = rest

  abbrev pub endpoint :
      {A : Type 0}
      → (A → Result (Unit {0}) Text)
      → (Text → Error)
      → Option A
      → Result (Unit {0}) Error
  endpoint attempt fail none = ok tt
  endpoint attempt fail (some a) = named fail (attempt a)

  unfoldable pub start :
      (MetricsConfig → Result (Unit {0}) Text)
      → (HealthConfig → Result (Unit {0}) Text)
      → Config
      → Option (Result (List (ProxyBuilder (LdapConnector U) L) × List (Text × List Running)) Error)
  start exporter bind config =
      unless_err (endpoint exporter metrics_error config.metrics)
        (unless_err (endpoint bind health_error config.health) (build_all config.proxy))

-- A signal of the process: a hangup, with what each policy file then loads as, or the request to shut down.
pub data Signal : Type 0 where
  hangup : (Text → Result (List Running) PolicyConfigError) → Signal
  shutdown_requested : Signal

abbrev pub reloaded : List Running → Result (List Running) PolicyConfigError → List Running
reloaded old (ok policies) = policies
reloaded old (err e) = old

unfoldable pub reload_all :
    (Text → Result (List Running) PolicyConfigError)
    → List (Text × List Running)
    → List (Text × List Running)
reload_all load [] = []
reload_all load ((path, current) ∷ targets) =
    (path, reloaded current (load path)) ∷ reload_all load targets

-- `reload_policies_on_signal`: the values of the channels after some signals.
unfoldable pub reload_policies_on_signal :
    List (Text × List Running) → List Signal → List (Text × List Running)
reload_policies_on_signal targets [] = targets
reload_policies_on_signal targets (shutdown_requested ∷ signals) = targets
reload_policies_on_signal targets (hangup load ∷ signals) =
    reload_policies_on_signal (reload_all load targets) signals
