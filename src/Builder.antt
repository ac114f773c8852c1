-- ===== src/Builder.antt =====
-- The builder of a proxy (src/builder.rs). A listener is what `proxy::run` is called with.
use protect.Assembly.{ConfigError, PolicyConfigError, ConnectionLimits, default_limits}
use protect.Core.Identity.{SocketAddr}
use protect.Threshold.{ThresholdPolicy}
use protect.Prelude.{
  true, false, Bool, Option, none, some, List, [], ◌∷◌, ◌++◌, Result, ok, err, Text,
}

pub data Error : Type 0 where
  config_error : ConfigError → Error
  policy_error : PolicyConfigError → Error
  tls_error : Text → Error
  metrics_error : Text → Error
  health_error : Text → Error
  missing_connector : Error

-- A policy, and whether its task of syncs runs.
abbrev pub Running : Type 0
Running = ThresholdPolicy × Bool

module _ (C L : Type 0) where
  pub record ProxyBuilder : Type 0 where
    pub listen_addr : SocketAddr
    pub listen_tls : Option L
    pub listen_starttls : Option L
    pub connector : Option C
    pub policies : List Running
    -- the value of the channel of a reload, if there is one
    pub policies_rx : Option (List Running)
    pub limits : ConnectionLimits
    -- whether it holds the sender of a shutdown that is never sent
    pub default_shutdown : Bool

  pub record Listener : Type 0 where
    pub addr : SocketAddr
    pub tls : Option L
    pub starttls : Option L
    pub upstream : C
    pub chain : List Running
    pub bounds : ConnectionLimits

-- The chain that new connections are given: that of the channel, or the builder's own.
abbrev pub chain_of : Option (List Running) → List Running → List Running
chain_of none own = own
chain_of (some current) own = current

module _ {C L : Type 0} where
  unfoldable pub new_builder : SocketAddr → ProxyBuilder C L
  new_builder addr = record {
    listen_addr = addr;
    listen_tls = none;
    listen_starttls = none;
    connector = none;
    policies = [];
    policies_rx = none;
    limits = default_limits;
    default_shutdown = true;
  }

  abbrev pub set_shutdown : ProxyBuilder C L → ProxyBuilder C L
  set_shutdown b = record b { default_shutdown = false }

  abbrev pub set_listen_tls : L → ProxyBuilder C L → ProxyBuilder C L
  set_listen_tls tls b = record b { listen_tls = some tls }

  abbrev pub set_listen_starttls : L → ProxyBuilder C L → ProxyBuilder C L
  set_listen_starttls tls b = record b { listen_starttls = some tls }

  abbrev pub set_connector : C → ProxyBuilder C L → ProxyBuilder C L
  set_connector c b = record b { connector = some c }

  abbrev pub push_policy : Running → ProxyBuilder C L → ProxyBuilder C L
  push_policy p b = record b { policies = b.policies ++ (p ∷ []) }

  abbrev pub extend_policies : List Running → ProxyBuilder C L → ProxyBuilder C L
  extend_policies ps b = record b { policies = b.policies ++ ps }

  abbrev pub policies_reloadable : List Running → ProxyBuilder C L → ProxyBuilder C L
  policies_reloadable ps b = record b { policies_rx = some ps }

  abbrev pub set_limits : ConnectionLimits → ProxyBuilder C L → ProxyBuilder C L
  set_limits limits b = record b { limits = limits }

  abbrev pub served : ProxyBuilder C L → Option C → Result (Listener C L) Error
  served b none = err missing_connector
  served b (some c) = ok (record {
    addr = b.listen_addr;
    tls = b.listen_tls;
    starttls = b.listen_starttls;
    upstream = c;
    chain = chain_of b.policies_rx b.policies;
    bounds = b.limits;
  })

  -- What `serve` passes on to `proxy::run`.
  unfoldable pub serve : ProxyBuilder C L → Result (Listener C L) Error
  serve b = served b b.connector
