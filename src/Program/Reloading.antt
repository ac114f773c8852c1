-- ===== src/Program/Reloading.antt =====
-- What is in force after reloads (src/lib.rs, `reload_policies_on_signal`).
use protect.Assembly.{PolicyConfigError}
use protect.Program.{
  Running, Signal, hangup, shutdown_requested, reloaded, reload_all, reload_policies_on_signal,
}
use protect.Prelude.{
  ◌≡◌, refl, ap, ◌∙◌, Option, none, some, List, [], ◌∷◌, map, Result, ok, err, Text,
}

-- The loads of the hangups before the shutdown.
abbrev pub loads : List Signal → List (Text → Result (List Running) PolicyConfigError)
loads [] = []
loads (shutdown_requested ∷ signals) = []
loads (hangup load ∷ signals) = load ∷ loads signals

abbrev pub or_result :
    Option (List Running) → Result (List Running) PolicyConfigError → Option (List Running)
or_result (some later) r = some later
or_result none (ok policies) = some policies
or_result none (err e) = none

-- What the last load of a file that succeeded gave.
abbrev pub last_good :
    Text → List (Text → Result (List Running) PolicyConfigError) → Option (List Running)
last_good path [] = none
last_good path (load ∷ later) = or_result (last_good path later) (load path)

abbrev pub in_force : List Running → Option (List Running) → List Running
in_force initial none = initial
in_force initial (some policies) = policies

in_force-reloaded :
    (initial : List Running) (r : Result (List Running) PolicyConfigError)
    (later : Option (List Running))
    → in_force (reloaded initial r) later ≡ in_force initial (or_result later r)
in_force-reloaded initial (ok policies) none = refl
in_force-reloaded initial (err e) none = refl
in_force-reloaded initial (ok policies) (some later) = refl
in_force-reloaded initial (err e) (some later) = refl

abbrev forced :
    List (Text → Result (List Running) PolicyConfigError)
    → Text × List Running
    → Text × List Running
forced ls (path, initial) = (path, in_force initial (last_good path ls))

forced-none : (targets : List (Text × List Running)) → targets ≡ map (forced []) targets
forced-none [] = refl
forced-none ((path, initial) ∷ targets) = ap (◌∷◌ (path, initial)) (forced-none targets)

map-forced :
    (load : Text → Result (List Running) PolicyConfigError)
    (later : List (Text → Result (List Running) PolicyConfigError))
    (targets : List (Text × List Running))
    → map (forced later) (reload_all load targets) ≡ map (forced (load ∷ later)) targets
unfolding reload_all
map-forced load later [] = refl
map-forced load later ((path, initial) ∷ targets) =
    ap (λ (ps : List Running). (path, ps) ∷ map (forced later) (reload_all load targets))
      (in_force-reloaded initial (load path) (last_good path later))
    ∙ ap (◌∷◌ (forced (load ∷ later) (path, initial))) (map-forced load later targets)

-- After any signals, each listener gives new connections the policies of the last hangup before the shutdown at which
-- its own file could be loaded, or, if there is none, those it has started with.
pub reload_policies_on_signal_lem :
    (targets : List (Text × List Running)) (signals : List Signal)
    → reload_policies_on_signal targets signals
      ≡ map
          (λ (t : Text × List Running). (t.0, in_force t.1 (last_good t.0 (loads signals))))
          targets
unfolding reload_policies_on_signal
reload_policies_on_signal_lem targets [] = forced-none targets
reload_policies_on_signal_lem targets (shutdown_requested ∷ signals) = forced-none targets
reload_policies_on_signal_lem targets (hangup load ∷ signals) =
    reload_policies_on_signal_lem (reload_all load targets) signals
    ∙ map-forced load (loads signals) targets
