-- ===== src/Pool/Health.antt =====
-- The health of targets over time, and the access to one target (src/core/upstream_pool.rs,
-- `mark_failed`, `mark_connected`).
use protect.Pool.{
  Target, UpstreamPool, is_healthy, update, mark_failed, mark_down, max_instant, mark_connected,
  release, failed_until, connected, released,
}
use protect.Prelude.{
  ℕ, zero, suc, ◌+◌, ◌<◌, true, some, none, List, [], ◌∷◌, ◌≡◌, refl, ap, length, get_elem?, nat_eq,
  leb, map_option, arith, if◌then◌else◌,
}

pub get_elem?-update :
    (f : Target → Target) (ts : List Target) (i j : ℕ)
    → get_elem? (update f ts i) j
      ≡ (if nat_eq i j then map_option f (get_elem? ts j) else get_elem? ts j)
unfolding update
get_elem?-update f [] i j = ground arith
get_elem?-update f (t ∷ ts) zero zero = refl
get_elem?-update f (t ∷ ts) zero (suc j) = ground arith
get_elem?-update f (t ∷ ts) (suc i) zero = ground arith
get_elem?-update f (t ∷ ts) (suc i) (suc j) = ground (arith, get_elem?-update f ts i j)

pub length-update :
    (f : Target → Target) (ts : List Target) (i : ℕ) → length (update f ts i) ≡ length ts
unfolding update
length-update f [] i = refl
length-update f (t ∷ ts) zero = refl
length-update f (t ∷ ts) (suc i) = ap suc (length-update f ts i)

pub target_at :
    (ts : List Target) (i : ℕ) → i < length ts → (t : Target) × (get_elem? ts i ≡ some t)
target_at [] i h = absurd (omega arith)
target_at (t ∷ ts) zero h = (t, refl)
target_at (t ∷ ts) (suc i) h = target_at ts i (omega arith)

-- For every target `i` of a pool: after a failure at `now` it is healthy again exactly from `now` plus the
-- cooldown on, or, where that is beyond the range of an Instant the failure has panicked; a successful dial
-- makes it healthy at once, the end of a connection does not change its health, and none of the three changes
-- the health of another target.
pub is_healthy-after :
    (pool : UpstreamPool) (clock : ℕ → ℕ) (i j now : ℕ)
    → i < length pool.targets
    → (map_option (λ q. is_healthy q clock j) (mark_failed pool i now) ≡ (
        if leb (now + pool.cooldown) max_instant
        then some
            (if nat_eq i j then leb (now + pool.cooldown) (clock j) else is_healthy pool clock j)
        else none))
      × (is_healthy (mark_connected pool i).0 clock j
          ≡ (if nat_eq i j then true else is_healthy pool clock j))
      × (is_healthy (release pool i) clock j ≡ is_healthy pool clock j)
unfolding is_healthy mark_failed mark_down mark_connected release
is_healthy-after pool clock i j now h =
    let (t, e) = target_at pool.targets i h in
    (
      ground (arith, get_elem?-update (failed_until (now + pool.cooldown)) pool.targets i j),
      ground (arith, get_elem?-update connected pool.targets i j),
      ground (arith, get_elem?-update released pool.targets i j),
    )
