-- ===== src/Health/Limit.antt =====
-- The limit of the health endpoint (src/core/health.rs, `serve`).
use protect.Health.{
  max_probes, Arrival, accepted, failed_accept, ended, Listener, admit_probe, end_probe, probe_step,
  serve_probes, open_probes,
}
use protect.Prelude.{ℕ, zero, suc, ◌+◌, ◌≤◌, ◌≡◌, refl, List, [], ◌∷◌, arith}

abbrev IsCounted : Listener → Type 0
IsCounted p = p.available + p.running ≡ max_probes

admit_probe-IsCounted :
    (a : ℕ) (p : Listener) → a ≡ p.available → IsCounted p → IsCounted (admit_probe a p)
admit_probe-IsCounted zero p e h = h
admit_probe-IsCounted (suc a) p e h = omega arith

end_probe-IsCounted :
    (r : ℕ) (p : Listener) → r ≡ p.running → IsCounted p → IsCounted (end_probe r p)
end_probe-IsCounted zero p e h = h
end_probe-IsCounted (suc r) p e h = omega arith

probe_step-IsCounted : (p : Listener) (a : Arrival) → IsCounted p → IsCounted (probe_step p a)
unfolding probe_step
probe_step-IsCounted p accepted h = admit_probe-IsCounted p.available p refl h
probe_step-IsCounted p failed_accept h = h
probe_step-IsCounted p ended h = end_probe-IsCounted p.running p refl h

serve_probes-IsCounted :
    (p : Listener) (arrivals : List Arrival) → IsCounted p → IsCounted (serve_probes p arrivals)
unfolding serve_probes
serve_probes-IsCounted p [] h = h
serve_probes-IsCounted p (a ∷ arrivals) h =
    serve_probes-IsCounted (probe_step p a) arrivals (probe_step-IsCounted p a h)

-- No more than 64 probes are served at a time.
pub probes_bounded : (arrivals : List Arrival) → (serve_probes open_probes arrivals).running ≤ 64
unfolding open_probes
probes_bounded arrivals = omega (arith, serve_probes-IsCounted open_probes arrivals refl)
