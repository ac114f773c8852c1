-- ===== src/Lib.antt =====
-- A verification library for ai-protect, the proxy that stands between LDAP clients and a directory
-- and blocks operations with too large a blast radius.
--
-- The accept loop (proxy.rs, serve) gives each connection a task. It dials one of the upstream targets
-- (connector/ldap.rs and core/upstream_pool.rs) and relays frames both ways: a client's frame may claim
-- an identity (a simple bind) and may be an action; each action goes through a chain of policies
-- (core/policy.rs) under the connection's identity and is forwarded or rejected; the threshold policy
-- (core/policy/threshold.rs) keeps a sliding window for each caller.
--
-- The files, and the code that each models (paths under src/):
--   Core         core/action.rs, core/identity.rs, core/connector.rs and core/net.rs: operation kinds,
--                actions, identities, the Connector trait as an interface, MaybeTlsStream
--   Policy       core/policy.rs: decisions, the Policy trait as an interface, evaluate_all
--   History      core/policy/threshold.rs: the type History, its two maps and its operations
--   Threshold    core/policy/threshold.rs: ThresholdConfig, ThresholdPolicy and its evaluate
--   Pool         core/upstream_pool.rs: UpstreamPool, the order of its candidates, its counters
--   Ldap         connector/ldap.rs: read_frame (Frame), lock attributes (Locks), DNs (Dn), decode, binds and
--                responses (Requests), negotiate_starttls (StartTls), dial (Dialing),
--                connect_upstream (Upstream);
--                Message has the types of the crate rasn_ldap and Text the strings of std
--   Proxy        proxy.rs: BindState, stage_pending_bind, resolve_pending_bind, handle_client_frame, and
--                (Session) the two relays of a connection as a step relation; (Traffic) the frames of all
--                connections under one chain
--   Upgrade      proxy.rs: maybe_upgrade_to_tls and with_timeout, StartTLS with a client
--   Server       proxy.rs: serve, its limit and its shutdown
--   Store        core/policy/store/mod.rs: Anchor; core/policy/threshold.rs: sync_once and the merge of what
--                the store returns
--   Backends     core/policy/store: what a sync does in SQLite and in Valkey, and one specification of both
--                (IsSync), which keeps an event exactly at the cutoff, as the stores do and the doc of the trait
--                HistoryStore does not
--   Settings     core/policy/threshold.rs: StateDbConfig, the defaults, and redact_valkey_url
--   Health       core/health.rs: a probe from its bytes, as they arrive, to the response, and the limit of connections
--   Tls          core/tls.rs: UpstreamTls::new and ListenTls::from_files
--   Audit        core/audit.rs: what a log line holds of a long value
--   Assembly     config.rs: Config and its loading; core/policy/config.rs: the policies of a file; the
--                constructors of connector/ldap.rs
--   Builder      builder.rs: ProxyBuilder
--   Program      lib.rs: build_proxy, the start of run_with_config, and the reloads of policy files
--   Examples     tests, and the theorems at concrete inputs
--
-- Conventions. An Instant and a Duration are a natural number of nanoseconds; what the code reads from the
-- clock is an argument. A string is the list of its bytes. A HashMap is an association list, a
-- BTreeSet a list in order, a VecDeque a list from front to back. A value behind a lock is returned
-- anew by the operation that changes it. Sums of usize are written modulo 2^64, and those of i64 wrap.
-- A panic is none of an Option: an Instant beyond its range, a semaphore of too many permits, a pool
-- without targets. Logging and metrics are left out. Loops are recursion on lists and numbers. Fuel stands in two places: Display of a number has 20 digits,
-- which is all that 64 bits need, and the scan of Valkey's keys has as many replies as its caller says, since
-- only the server decides when it ends.
--
-- Parameters. The codec of the crate rasn, the shuffle of the crate rand, the keyed hash of a DN, what
-- Unicode says of strings that are not ASCII, what a dial gives, how a stream ends, how SQLite orders rows of the
-- same key, the commands of a Valkey server (Backends.Valkey.Laws has what is relied on), the crate redis, the files
-- and the tables that TOML finds in them, what TLS makes of its files (Tls has rustls as an interface), and what
-- a handshake makes of the bytes of a client.
--
-- Interleavings. The relays of a connection run in one task, so a step of Session is what happens between
-- two points where they wait: a frame is handled in one step and written in a later one. A chain of policies
-- is evaluated in one step; between steps the state of the policies, which other connections share, may change in any
-- way, but the chain keeps its policies. Traffic is
-- the frames of all connections, in the order in which they are handled, under one chain that only they change.
--
-- Not modelled: the handshakes of TLS, sockets and the tokio runtime, the handlers of signals, the
-- command line, metrics, and the writing of logs. A score of Valkey is taken for a number that an f64 holds exactly.
mod Prelude
pub mod Core
pub mod History
pub mod Policy
pub mod Threshold
pub mod Pool
pub mod Ldap
pub mod Proxy
pub mod Server
pub mod Health
pub mod Settings
pub mod Assembly
pub mod Builder
pub mod Program
pub mod Store
pub mod Backends
mod Examples
pub mod Upgrade
pub mod Audit
pub mod Tls
