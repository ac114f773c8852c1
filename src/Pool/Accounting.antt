-- ===== src/Pool/Accounting.antt =====
-- The count of active connections (src/core/upstream_pool.rs, `ActiveConnectionGuard`), over every
-- interleaving of the pool's operations.
use mathlib.Core.Option.{some-injective}
use protect.Core.Identity.{SocketAddr}
use protect.Pool.{
  new, fresh_target, LoadBalanceStrategy, Target, UpstreamPool, load, update, mark_failed,
  mark_down, max_instant, mark_connected, release, failed_until, connected, released, candidates,
  usize_mod,
}
use protect.Pool.Health.{get_elem?-update, length-update, target_at}
use protect.Prelude.{
  Bool-cases, leb, inl, inr, ℕ, ap, sym, map, zero, suc, ◌+◌, ◌<◌, some, List, [], ◌∷◌, ◌++◌, ◌≡◌,
  refl, ◌∙◌, length, length-append, nat_eq, arith, if◌then◌else◌,
}

-- A pool with the guards that are alive, one for each connection, as the index of its target.
pub record System : Type 0 where
  pub pool : UpstreamPool
  pub guards : List ℕ

-- What connections do to a pool that they share, one atomic operation at a time.
pub data Step (shuffle : List ℕ → List ℕ) (s : System) : System → Type 0 where
  offer : (clock : ℕ → ℕ) → Step shuffle s (record s { pool = (candidates shuffle clock s.pool).1 })
  fail :
      (i now : ℕ) (pool : UpstreamPool)
      → mark_failed s.pool i now ≡ some pool
      → Step shuffle s (record s { pool = pool })
  connect :
      (i : ℕ)
      → i < length s.pool.targets
      → suc (length s.guards) < usize_mod
      → Step shuffle s (record { pool = (mark_connected s.pool i).0; guards = i ∷ s.guards })
  drop :
      (i : ℕ) (before after : List ℕ)
      → s.guards ≡ before ++ i ∷ after
      → Step shuffle s (record { pool = release s.pool i; guards = before ++ after })

pub data Reach (shuffle : List ℕ → List ℕ) (s : System) : System → Type 0 where
  here : Reach shuffle s s
  next : {t u : System} → Reach shuffle s t → Step shuffle t u → Reach shuffle s u

unfoldable pub count : ℕ → List ℕ → ℕ
count i [] = 0
count i (j ∷ js) = if nat_eq j i then suc (count i js) else count i js

count-append : (i : ℕ) (xs ys : List ℕ) → count i (xs ++ ys) ≡ count i xs + count i ys
unfolding count
count-append i [] ys = omega arith
count-append i (x ∷ xs) ys = ground (arith, count-append i xs ys)

count-le_length : (i : ℕ) (xs : List ℕ) → count i xs < suc (length xs)
unfolding count
count-le_length i [] = omega arith
count-le_length i (x ∷ xs) = ground (arith, count-le_length i xs)

pub record IsAccounted (s : System) : Type 0 where
  pub few : length s.guards < usize_mod
  pub counted : (i : ℕ) → i < length s.pool.targets → load s.pool.targets i ≡ count i s.guards

count_without :
    (i j : ℕ) (before after : List ℕ)
    → count j (before ++ i ∷ after)
      ≡ (if nat_eq i j then suc (count j (before ++ after)) else count j (before ++ after))
unfolding count
count_without i j before after =
    ground (arith, count-append j before (i ∷ after), count-append j before after)

connect_load :
    (ts : List Target) (i j n : ℕ)
    → j < length ts
    → load ts j ≡ n
    → suc n < usize_mod
    → load (update connected ts i) j ≡ (if nat_eq i j then suc n else n)
unfolding load
connect_load ts i j n h e fits =
    let (t, at) = target_at ts j h in ground (arith, get_elem?-update connected ts i j)

release_load :
    (ts : List Target) (i j n : ℕ)
    → j < length ts
    → load ts j ≡ (if nat_eq i j then suc n else n)
    → suc n < usize_mod
    → load (update released ts i) j ≡ n
unfolding load
release_load ts i j n h e fits =
    let (t, at) = target_at ts j h in ground (arith, get_elem?-update released ts i j)

fail_load :
    (ts : List Target) (i j until : ℕ) → load (update (failed_until until) ts i) j ≡ load ts j
unfolding load
fail_load ts i j until = ground (arith, get_elem?-update (failed_until until) ts i j)

mark_failed-some :
    (pool : UpstreamPool) (i now : ℕ) (pool' : UpstreamPool)
    → mark_failed pool i now ≡ some pool'
    → pool' ≡ mark_down pool i (now + pool.cooldown)
unfolding mark_failed
mark_failed-some pool i now pool' p = elim (Bool-cases (leb (now + pool.cooldown) max_instant)) [
  | inl fits ↦ sym (some-injective _ _ (rw fits at p))
  | inr late ↦ let q = rw late at p in absurd (cc)
]

Step-IsAccounted :
    (shuffle : List ℕ → List ℕ) {s t : System} → Step shuffle s t → IsAccounted s → IsAccounted t
unfolding candidates mark_down mark_connected release count
Step-IsAccounted shuffle (offer clock) v = record { few = v.few; counted = v.counted }
Step-IsAccounted shuffle {s} (fail i now pool marked) v =
    rw (mark_failed-some s.pool i now pool marked) (record {
      few = v.few;
      counted = λ j h.
          fail_load s.pool.targets i j (now + s.pool.cooldown)
          ∙ v.counted j
              (rw (← length-update (failed_until (now + s.pool.cooldown)) s.pool.targets i) h);
    })
Step-IsAccounted shuffle {s} (connect i h few) v = record {
  few = few;
  counted = λ j k.
      let k' : j < length s.pool.targets =
        omega (arith, length-update connected s.pool.targets i) in
      connect_load s.pool.targets i j (count j s.guards) k' (v.counted j k')
        (omega (arith, count-le_length j s.guards));
}
Step-IsAccounted shuffle {s} (drop i before after e) v = record {
  few = omega (
    arith,
    ap (length {A = ℕ}) e,
    length-append before (i ∷ after),
    length-append before after,
    v.few,
  );
  counted = λ j k.
      let k' : j < length s.pool.targets = omega (arith, length-update released s.pool.targets i) in
      release_load s.pool.targets i j (count j (before ++ after)) k'
        (v.counted j k' ∙ (ap (count j) e ∙ count_without i j before after))
        (omega (
          arith,
          ap (length {A = ℕ}) e,
          length-append before (i ∷ after),
          length-append before after,
          count-le_length j (before ++ after),
          v.few,
        ));
}

Reach-IsAccounted :
    (shuffle : List ℕ → List ℕ) {s t : System} → Reach shuffle s t → IsAccounted s → IsAccounted t
Reach-IsAccounted shuffle here v = v
Reach-IsAccounted shuffle (next r st) v =
    Step-IsAccounted shuffle st (Reach-IsAccounted shuffle r v)

load-fresh : (addrs : List SocketAddr) (i : ℕ) → load (map fresh_target addrs) i ≡ 0
unfolding load
load-fresh [] i = refl
load-fresh (a ∷ addrs) zero = refl
load-fresh (a ∷ addrs) (suc i) = load-fresh addrs i

-- In every state that a new pool can come to by selections, failures, connections and ends of
-- connections, in any order, with fewer than 2^64 connections at once, the count of every target is
-- the number of its connections that are alive.
pub active_connections_lem :
    (shuffle : List ℕ → List ℕ) (addrs : List SocketAddr) (strategy : LoadBalanceStrategy)
    (cooldown : ℕ) (pool : UpstreamPool) (s : System)
    → new addrs strategy cooldown ≡ some pool
    → Reach shuffle (record { pool = pool; guards = [] }) s
    → (i : ℕ) → i < length s.pool.targets
    → load s.pool.targets i ≡ count i s.guards
unfolding new count
active_connections_lem shuffle [] strategy cooldown pool s made r = absurd (cc)
active_connections_lem shuffle (a ∷ addrs) strategy cooldown pool s made r =
    (Reach-IsAccounted shuffle r (record {
      few = omega arith;
      counted = λ i h.
          ap (λ (q : UpstreamPool). load q.targets i) (sym (some-injective _ pool made))
          ∙ load-fresh (a ∷ addrs) i;
    })).counted
