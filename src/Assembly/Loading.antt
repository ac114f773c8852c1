-- ===== src/Assembly/Loading.antt =====
-- What a configuration that has been loaded promises (src/config.rs).
use protect.Assembly.{
  ProxyConfig, Config, ConfigError, config_unread, config_unparsed, no_proxies, Files,
  deserialize_non_empty_addrs, deserialize_proxies, refuse_empty, load_config,
}
use protect.Core.Identity.{SocketAddr}
use protect.Pool
use protect.Pool.{LoadBalanceStrategy, UpstreamPool}
use protect.Prelude.{
  ℕ, ◌<◌, ◌≡◌, refl, ap, subst, some, List, [], ◌∷◌, length, map, Result, ok, err, Text, All, arith,
  inl, inr, ◌⊎◌, Result-cases,
}

-- A proxy whose pool can be made, and has a target for each of its addresses.
abbrev pub IsServable : ProxyConfig → Type 0
IsServable p =
    (cooldown : ℕ)
    → (pool : UpstreamPool) × (Pool.new p.upstream_addrs p.upstream_strategy cooldown ≡ some pool)
      × (map (λ t. t.addr) pool.targets ≡ p.upstream_addrs)
      × (0 < length pool.targets)

-- What loading may end with.
abbrev pub LoadOutcome : Files → Text → Result Config ConfigError → Type 0
LoadOutcome files path (ok config) = (0 < length config.proxy) × All IsServable config.proxy
LoadOutcome files path (err (config_unread p e)) = (p ≡ path) × (files.read_to_string path ≡ err e)
LoadOutcome files path (err (config_unparsed p e)) =
    (p ≡ path)
    × ((raw : Text) × (files.read_to_string path ≡ ok raw)
        × ((files.config_table raw ≡ err e)
            ⊎ ((table : Config) × (files.config_table raw ≡ ok table)
                × (deserialize_proxies table.proxy ≡ err e))))
LoadOutcome files path (err (no_proxies p)) =
    (p ≡ path)
    × ((raw : Text) × (files.read_to_string path ≡ ok raw)
        × ((table : Config) × (files.config_table raw ≡ ok table) × (table.proxy ≡ [])))

addrs_of_fresh : (addrs : List SocketAddr) → map (λ t. t.addr) (map Pool.fresh_target addrs) ≡ addrs
addrs_of_fresh [] = refl
addrs_of_fresh (a ∷ addrs) = ap (◌∷◌ a) (addrs_of_fresh addrs)

deserialized-IsServable :
    (p : ProxyConfig) (raw addrs : List SocketAddr)
    → deserialize_non_empty_addrs raw ≡ ok addrs
    → IsServable (record p { upstream_addrs = addrs })
unfolding deserialize_non_empty_addrs Pool.new
deserialized-IsServable p [] addrs e = absurd (cc)
deserialized-IsServable p (a ∷ raw) addrs e =
    let same : a ∷ raw ≡ addrs = cc in
    subst (λ (l : List SocketAddr). IsServable (record p { upstream_addrs = l })) same
      (λ cooldown. (
        record {
          targets = map Pool.fresh_target (a ∷ raw);
          strategy = p.upstream_strategy;
          cooldown = cooldown;
          round_robin_counter = 0;
        },
        refl,
        addrs_of_fresh (a ∷ raw),
        omega arith,
      ))

deserialize_proxies-IsServable :
    (raw proxies : List ProxyConfig)
    → deserialize_proxies raw ≡ ok proxies
    → All IsServable proxies × ((proxies ≡ []) → raw ≡ [])
unfolding deserialize_proxies
deserialize_proxies-IsServable [] proxies e =
    let same : [] ≡ proxies = cc in
    subst
      (λ (l : List ProxyConfig). All IsServable l × ((l ≡ []) → ◌≡◌ {A = List ProxyConfig} [] []))
      same (tt, λ n. refl)
deserialize_proxies-IsServable (p ∷ raw) proxies e =
    elim (Result-cases (deserialize_non_empty_addrs p.upstream_addrs)) [
      | inr (x, bad) ↦ let q = rw bad at e in absurd (cc)
      | inl (addrs, good) ↦ elim (Result-cases (deserialize_proxies raw)) [
        | inr (x, bad) ↦ let q = rw (good, bad) at e in absurd (cc)
        | inl (rest, fine) ↦
            let q = rw (good, fine) at e in
            let same : (record p { upstream_addrs = addrs } ∷ rest) ≡ proxies = cc in
            subst (λ (l : List ProxyConfig). All IsServable l × ((l ≡ []) → (p ∷ raw) ≡ [])) same
              (
                (
                  deserialized-IsServable p p.upstream_addrs addrs good,
                  (deserialize_proxies-IsServable raw rest fine).0,
                ),
                λ n. absurd (cc),
              )
      ]
    ]

module _ (files : Files) (path : Text) where
  refused_or_served :
      (raw : Text) (table : Config) (proxies : List ProxyConfig)
      → files.read_to_string path ≡ ok raw
      → files.config_table raw ≡ ok table
      → All IsServable proxies × ((proxies ≡ []) → table.proxy ≡ [])
      → LoadOutcome files path (refuse_empty path (record table { proxy = proxies }))
  refused_or_served raw table [] r t (served, nothing) = (refl, (raw, r, (table, t, nothing refl)))
  refused_or_served raw table (p ∷ proxies) r t (served, nothing) = (omega arith, served)

  -- A configuration that is loaded has a proxy, and for none of its proxies does the making of the pool panic; one
  -- that is not is refused with the path and for the reason that holds of the file.
  pub load_config-Outcome : LoadOutcome files path (load_config files path)
  unfolding load_config
  load_config-Outcome = elim (Result-cases (files.read_to_string path)) [
    | inr (e, r) ↦ rw r (refl, r)
    | inl (raw, r) ↦ elim (Result-cases (files.config_table raw)) [
      | inr (e, t) ↦ rw r (rw t (refl, (raw, r, inl t)))
      | inl (table, t) ↦ elim (Result-cases (deserialize_proxies table.proxy)) [
        | inr (e, d) ↦ rw r (rw t (rw d (refl, (raw, r, inr (table, t, d)))))
        | inl (proxies, d) ↦ rw r (
            rw t (
              rw d (
                refused_or_served raw table proxies r t
                  (deserialize_proxies-IsServable table.proxy proxies d))))
      ]
    ]
  ]
