-- ===== src/Server/Limits.antt =====
-- The limits of the accept loop (src/proxy.rs, `serve`).
use mathlib.Core.Option.{some-injective}
use protect.Server.{
  max_permits, Server, Event, incoming, finished, open_server, in_flight, admit, finish, handle,
  serve_loop, shut_down,
}
use protect.Prelude.{
  Bool-cases, inl, inr, sym, some, ℕ, zero, suc, ◌+◌, ◌-◌, ◌≤◌, ◌<◌, ◌≡◌, refl, ap, ◌∙◌, List, [],
  ◌∷◌, leb, if◌then◌else◌, arith,
}

-- Each permit is with a running connection or available.
abbrev pub IsBalanced : ℕ → Server → Type 0
IsBalanced max_connections s = s.available + s.running ≡ max_connections

admit-IsBalanced :
    (max a : ℕ) (s : Server) → a ≡ s.available → IsBalanced max s → IsBalanced max (admit a s)
admit-IsBalanced max zero s e h = h
admit-IsBalanced max (suc a) s e h = omega arith

finish-IsBalanced :
    (max r : ℕ) (s : Server) → r ≡ s.running → IsBalanced max s → IsBalanced max (finish r s)
finish-IsBalanced max zero s e h = h
finish-IsBalanced max (suc r) s e h = omega arith

handle-IsBalanced :
    (max : ℕ) (s : Server) (e : Event) → IsBalanced max s → IsBalanced max (handle s e)
unfolding handle
handle-IsBalanced max s incoming h = admit-IsBalanced max s.available s refl h
handle-IsBalanced max s finished h = finish-IsBalanced max s.running s refl h

loop-IsBalanced :
    (max : ℕ) (s : Server) (es : List Event) → IsBalanced max s → IsBalanced max (serve_loop s es)
unfolding serve_loop
loop-IsBalanced max s [] h = h
loop-IsBalanced max s (e ∷ es) h = loop-IsBalanced max (handle s e) es (handle-IsBalanced max s e h)

admitted :
    (max a : ℕ) (s : Server)
    → a ≡ s.available
    → IsBalanced max s
    → (admit a s).running ≡ (if leb max s.running then s.running else s.running + 1)
admitted max zero s e h = ground arith
admitted max (suc a) s e h = ground arith

open_server-some :
    (max_connections : ℕ) (s : Server)
    → open_server max_connections ≡ some s
    → s ≡ record { available = max_connections; running = 0; ended = 0 }
unfolding open_server
open_server-some max s p = elim (Bool-cases (leb max max_permits)) [
  | inl fits ↦ sym (some-injective _ _ (rw fits at p))
  | inr many ↦ let q = rw many at p in absurd (cc)
]

-- If the semaphore takes the limit, then after any connections and ends, in any order, at most
-- max_connections run, and the next one is admitted exactly if fewer do.
pub serve_loop-IsBalanced :
    (max_connections : ℕ) (s : Server) (events : List Event)
    → open_server max_connections ≡ some s
    → ((serve_loop s events).running ≤ max_connections)
      × ((handle (serve_loop s events) incoming).running ≡ (
          if leb max_connections (serve_loop s events).running
          then (serve_loop s events).running
          else (serve_loop s events).running + 1))
unfolding handle
serve_loop-IsBalanced max s events opened =
    let t = serve_loop s events in
    let balanced : IsBalanced max s = rw (open_server-some max s opened) (omega arith) in
    let h = loop-IsBalanced max s events balanced in
    (omega (arith, h), admitted max t.available t refl h)

-- Connections that come one at a time, and end.
unfoldable pub visits : ℕ → List Event
visits zero = []
visits (suc n) = incoming ∷ finished ∷ visits n

visit_loop :
    (a d n : ℕ)
    → serve_loop (record { available = suc a; running = 0; ended = d }) (visits n)
      ≡ record { available = suc a; running = 0; ended = d + n }
unfolding visits serve_loop handle
visit_loop a d zero = ap (λ k. record { available = suc a; running = 0; ended = k }) (omega arith)
visit_loop a d (suc n) =
    ap (λ k. serve_loop (record { available = k; running = 0; ended = d + 1 }) (visits n))
      (omega arith)
    ∙ (visit_loop a (d + 1) n
        ∙ ap (λ k. record { available = suc a; running = 0; ended = k }) (omega arith))

-- The tasks of connections that have ended are never taken out of the set while the proxy serves: if the
-- semaphore takes a limit that is not 0, then after n visits none runs, and the set holds n tasks.
pub serve_loop-visits :
    (max_connections n : ℕ) (s : Server)
    → open_server max_connections ≡ some s
    → 0 < max_connections
    → (in_flight (serve_loop s (visits n)) ≡ n) × ((serve_loop s (visits n)).running ≡ 0)
serve_loop-visits zero n s opened h = absurd (omega arith)
serve_loop-visits (suc max) n s opened h =
    rw (open_server-some (suc max) s opened)
      (ap in_flight (visit_loop max 0 n) ∙ omega arith, ap (λ t. t.running) (visit_loop max 0 n))

-- A shutdown leaves no connection running, and aborts only those that do not end in time.
pub shut_down_lem :
    (s : Server) (finishing : ℕ)
    → finishing ≤ s.running
    → ((shut_down s finishing).left ≡ 0)
      × ((shut_down s finishing).joined + (shut_down s finishing).aborted ≡ in_flight s)
      × ((shut_down s finishing).aborted ≡ s.running - finishing)
unfolding shut_down
shut_down_lem s finishing h = (ground arith, ground arith, ground arith)
