-- ===== src/Program/Starting.antt =====
-- What the start of the program leads to (src/lib.rs, `run_with_config` and `build_proxy`).
use protect.Assembly.{ProxyConfig, Files, load_policies, LdapConnector}
use protect.Builder.{Error, ProxyBuilder, Listener, Running, serve}
use protect.Program.{TlsFiles, transpose, asks_starttls, limits_of, upstream_tls_of, listen_tls_of}
use protect.Store.Opening.{Surroundings}
use protect.Prelude.{
  ◌<◌, ◌≡◌, Option, none, some, List, [], ◌∷◌, length, map, Result, ok, err, Text,
}

module _ {U L : Type 0} (tls : TlsFiles U L) (files : Files) (s : Surroundings) where
  abbrev pub Builder : Type 0
  Builder = ProxyBuilder (LdapConnector U) L

  -- A builder serves what its entry of the configuration says: at its address, to its targets, with the
  -- policies of its file, which are what a reload will replace, and with its limits.
  pub record IsListening (p : ProxyConfig) (b : Builder) (target : Text × List Running)
      : Type 0 where
    pub listener : Listener (LdapConnector U) L
    pub serves : serve b ≡ ok listener
    pub addr : listener.addr ≡ p.listen_addr
    pub targets : map (λ t. t.addr) listener.upstream.pool.targets ≡ p.upstream_addrs
    pub some_target : 0 < length listener.upstream.pool.targets
    pub file : target.0 ≡ p.policy.file
    pub policies : load_policies files s p.policy.file ≡ ok target.1
    pub chain : listener.chain ≡ target.1
    pub bounds : listener.bounds ≡ limits_of p
    pub tls_made : transpose (listen_tls_of tls files s) p.listen_tls ≡ ok listener.tls
    pub starttls_made :
        transpose (listen_tls_of tls files s) p.listen_starttls ≡ ok listener.starttls
    pub upstream_made :
        transpose (upstream_tls_of tls files s) p.upstream_tls ≡ ok listener.upstream.upstream_tls
    pub upstream_starttls : listener.upstream.upstream_starttls ≡ asks_starttls p.upstream_tls

  abbrev pub AreListening : List ProxyConfig → List Builder → List (Text × List Running) → Type 0
  AreListening [] [] [] = Unit
  AreListening [] [] (t ∷ targets) = ⊥
  AreListening [] (b ∷ builders) targets = ⊥
  AreListening (p ∷ proxies) [] targets = ⊥
  AreListening (p ∷ proxies) (b ∷ builders) [] = ⊥
  AreListening (p ∷ proxies) (b ∷ builders) (t ∷ targets) =
      IsListening p b t × AreListening proxies builders targets

  -- Either an error, or a builder for each entry; no panic of a pool without targets.
  abbrev pub StartOutcome :
      List ProxyConfig → Option (Result (List Builder × List (Text × List Running)) Error) → Type 0
  StartOutcome proxies none = ⊥
  StartOutcome proxies (some (err e)) = Unit
  StartOutcome proxies (some (ok (builders, targets))) = AreListening proxies builders targets

  abbrev BuildOutcome : ProxyConfig → Option (Result (Builder × List Running) Error) → Type 0
  BuildOutcome p none = ⊥
  BuildOutcome p (some (err e)) = Unit
  BuildOutcome p (some (ok (b, policies))) = IsListening p b (p.policy.file, policies)

  -- What is known of the connector of an entry.
  record IsConnector (p : ProxyConfig) (connector : LdapConnector U) : Type 0 where
    addrs : map (λ t. t.addr) connector.pool.targets ≡ p.upstream_addrs
    some_addr : 0 < length connector.pool.targets
    made : transpose (upstream_tls_of tls files s) p.upstream_tls ≡ ok connector.upstream_tls
    asked : connector.upstream_starttls ≡ asks_starttls p.upstream_tls
