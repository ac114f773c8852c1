-- ===== src/Pool/Turns.antt =====
-- The round robin of `candidates` (src/core/upstream_pool.rs).
use native.Mathlib.Nat.{mod-lt, mod-eq_of_lt}
use protect.Pool.{
  UpstreamPool, LoadBalanceStrategy, round_robin, is_healthy, tiers, rotate_left, arrange, order,
  candidates, usize_mod,
}
use protect.Prelude.{
  ℕ, zero, suc, ◌+◌, ◌%◌, ◌<◌, List, [], ◌∷◌, ◌++◌, ◌≡◌, refl, ap, ◌∙◌, length, take, drop,
  get_elem?, arith, length-append, take-append-drop,
}

first_of_drop :
    (n : ℕ) (xs ys : List ℕ) → n < length xs → get_elem? (drop n xs ++ ys) 0 ≡ get_elem? xs n
first_of_drop n [] ys h = absurd (omega arith)
first_of_drop zero (x ∷ xs) ys h = refl
first_of_drop (suc n) (x ∷ xs) ys h = first_of_drop n xs ys (omega arith)

get_elem?-append_left : (xs ys : List ℕ) → 0 < length xs → get_elem? (xs ++ ys) 0 ≡ get_elem? xs 0
get_elem?-append_left [] ys h = absurd (omega arith)
get_elem?-append_left (x ∷ xs) ys h = refl

rotated_length : (n : ℕ) (xs : List ℕ) → length (drop n xs ++ take n xs) ≡ length xs
rotated_length n xs = omega (
  arith,
  length-append (drop n xs) (take n xs),
  length-append (take n xs) (drop n xs),
  ap length (take-append-drop n xs),
)

-- The pool after one call of `candidates` for each clock of the list.
unfoldable pub after_calls : (List ℕ → List ℕ) → List (ℕ → ℕ) → UpstreamPool → UpstreamPool
after_calls shuffle [] pool = pool
after_calls shuffle (clock ∷ clocks) pool =
    after_calls shuffle clocks (candidates shuffle clock pool).1

-- The same targets are healthy at every one of the clocks.
abbrev pub SameUp : UpstreamPool → List ℕ → List (ℕ → ℕ) → Type 0
SameUp pool up [] = Unit
SameUp pool up (clock ∷ clocks) = ((tiers pool clock).0 ≡ up) × SameUp pool up clocks

module _ (shuffle : List ℕ → List ℕ) where
  arrange_turn :
      (pool : UpstreamPool) (s : LoadBalanceStrategy) (xs : List ℕ) (x : ℕ) (up : List ℕ)
      → s ≡ round_robin
      → xs ≡ x ∷ up
      → arrange shuffle pool s xs ≡ (
        rotate_left (pool.round_robin_counter % length (x ∷ up)) (x ∷ up),
        (pool.round_robin_counter + 1) % usize_mod,
      )
  unfolding arrange
  arrange_turn pool s xs x up rr e = rw (rr, e)

  first_choice :
      (pool : UpstreamPool) (clock : ℕ → ℕ) (x : ℕ) (up : List ℕ)
      → pool.strategy ≡ round_robin
      → (tiers pool clock).0 ≡ x ∷ up
      → get_elem? (order shuffle clock pool) 0
        ≡ get_elem? (x ∷ up) (pool.round_robin_counter % length (x ∷ up))
  unfolding order rotate_left
  first_choice pool clock x up rr e =
      let k = pool.round_robin_counter % length (x ∷ up) in
      let small : k < length (x ∷ up) = mod-lt pool.round_robin_counter (omega arith) in
      let turned : List ℕ = drop k (x ∷ up) ++ take k (x ∷ up) in
      let long : 0 < length turned = omega (arith, rotated_length k (x ∷ up)) in
      ap (λ (r : List ℕ × ℕ). get_elem? (r.0 ++ (tiers pool clock).1) 0)
        (arrange_turn pool pool.strategy (tiers pool clock).0 x up rr e)
      ∙ (get_elem?-append_left turned (tiers pool clock).1 long
          ∙ first_of_drop k (x ∷ up) (take k (x ∷ up)) small)

  next_counter :
      (pool : UpstreamPool) (clock : ℕ → ℕ) (x : ℕ) (up : List ℕ)
      → pool.strategy ≡ round_robin
      → (tiers pool clock).0 ≡ x ∷ up
      → pool.round_robin_counter + 1 < usize_mod
      → (candidates shuffle clock pool).1
        ≡ record pool { round_robin_counter = pool.round_robin_counter + 1 }
  unfolding candidates
  next_counter pool clock x up rr e fits =
      ap (λ (r : List ℕ × ℕ). record pool { round_robin_counter = r.1 })
        (arrange_turn pool pool.strategy (tiers pool clock).0 x up rr e)
      ∙ ap (λ (n : ℕ). record pool { round_robin_counter = n }) (mod-eq_of_lt fits)

  tiers-counter :
      (pool : UpstreamPool) (clock : ℕ → ℕ) (n : ℕ)
      → tiers (record pool { round_robin_counter = n }) clock ≡ tiers pool clock
  unfolding tiers is_healthy
  tiers-counter pool clock n = refl

  SameUp-counter :
      (pool : UpstreamPool) (up : List ℕ) (clocks : List (ℕ → ℕ)) (n : ℕ)
      → SameUp pool up clocks
      → SameUp (record pool { round_robin_counter = n }) up clocks
  SameUp-counter pool up [] n h = tt
  SameUp-counter pool up (clock ∷ clocks) n h =
      (rw tiers-counter h.0, SameUp-counter pool up clocks n h.1)

  after_calls_lem :
      (pool : UpstreamPool) (clocks : List (ℕ → ℕ)) (x : ℕ) (up : List ℕ)
      → pool.strategy ≡ round_robin
      → SameUp pool (x ∷ up) clocks
      → pool.round_robin_counter + length clocks < usize_mod
      → after_calls shuffle clocks pool
        ≡ record pool { round_robin_counter = pool.round_robin_counter + length clocks }
  unfolding after_calls
  after_calls_lem pool [] x up rr same fits =
      ap (λ (n : ℕ). record pool { round_robin_counter = n }) (omega arith)
  after_calls_lem pool (clock ∷ clocks) x up rr same fits =
      let next = record pool { round_robin_counter = pool.round_robin_counter + 1 } in
      ap (after_calls shuffle clocks) (next_counter pool clock x up rr same.0 (omega arith))
      ∙ (after_calls_lem next clocks x up rr
            (SameUp-counter pool (x ∷ up) clocks (pool.round_robin_counter + 1) same.1)
            (omega arith)
          ∙ ap (λ (n : ℕ). record pool { round_robin_counter = n }) (omega arith))

  -- Under the round robin, after any number of calls at which the same targets were healthy, the next
  -- call puts first the healthy target whose turn it is by the counter and the number of the
  -- calls, so each healthy target comes first in its turn, if the counter and the number of the calls together
  -- are below 2^64.
  pub round_robin_turns :
      (pool : UpstreamPool) (clocks : List (ℕ → ℕ)) (clock : ℕ → ℕ) (x : ℕ) (up : List ℕ)
      → pool.strategy ≡ round_robin
      → SameUp pool (x ∷ up) clocks
      → (tiers pool clock).0 ≡ x ∷ up
      → pool.round_robin_counter + length clocks < usize_mod
      → get_elem? (order shuffle clock (after_calls shuffle clocks pool)) 0
        ≡ get_elem? (x ∷ up) ((pool.round_robin_counter + length clocks) % length (x ∷ up))
  round_robin_turns pool clocks clock x up rr same now fits =
      let n = pool.round_robin_counter + length clocks in
      ap (λ (q : UpstreamPool). get_elem? (order shuffle clock q) 0)
        (after_calls_lem pool clocks x up rr same fits)
      ∙ first_choice (record pool { round_robin_counter = n }) clock x up rr (rw tiers-counter now)
