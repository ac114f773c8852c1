-- ===== src/Pool/Tiers.antt =====
-- What a caller of `candidates` is given (src/core/upstream_pool.rs).
use mathlib.Core.List.{Perm}
use native.Mathlib.Bridge.{le_prop}
use protect.Pool.{
  Candidate, UpstreamPool, LoadBalanceStrategy, round_robin, random, least_connections, is_healthy,
  tiers, load, insert_by, sort_by_key, arrange, order, candidates,
}
use protect.Pool.Order.{
  order-Perm, arrange-Perm, partition-IsIncreasing, indices-IsIncreasing, partition-All,
  mem-indices, All-Perm, All-of_Mem, lookup_all_lem, IsIncreasing, IsAddressed,
}
use protect.Prelude.{
  ℕ, ◌≤◌, ◌<◌, Bool, true, false, List, [], ◌∷◌, ◌++◌, ◌≡◌, inl, inr, map, length, indices, All,
  leb, arith, Bool-cases,
}

-- In the order of the loads, smallest first.
abbrev pub IsSortedBy : {A : Type 0} → (A → ℕ) → List A → Type 0
IsSortedBy key [] = Unit
IsSortedBy key (x ∷ xs) = All (λ y. key x ≤ key y) xs × IsSortedBy key xs

All-le_trans :
    {A : Type 0} (key : A → ℕ) (a b : A) (xs : List A)
    → key a ≤ key b
    → All (λ y. key b ≤ key y) xs
    → All (λ y. key a ≤ key y) xs
All-le_trans key a b [] h all = tt
All-le_trans key a b (x ∷ xs) h all = (omega arith, All-le_trans key a b xs h all.1)

All-insert_by :
    {A : Type 0} (key : A → ℕ) (a x : A) (ys : List A)
    → key a ≤ key x
    → All (λ y. key a ≤ key y) ys
    → All (λ y. key a ≤ key y) (insert_by key x ys)
unfolding insert_by
All-insert_by key a x [] h all = (h, tt)
All-insert_by key a x (y ∷ ys) h all = elim (Bool-cases (leb (key x) (key y))) [
  | inl le ↦ rw le (h, all)
  | inr gt ↦ rw gt (all.0, All-insert_by key a x ys h all.1)
]

insert_by-IsSortedBy :
    {A : Type 0} (key : A → ℕ) (x : A) (ys : List A)
    → IsSortedBy key ys
    → IsSortedBy key (insert_by key x ys)
unfolding insert_by
insert_by-IsSortedBy key x [] h = (tt, tt)
insert_by-IsSortedBy key x (y ∷ ys) h = elim (Bool-cases (leb (key x) (key y))) [
  | inl le ↦ let l : key x ≤ key y = ground arith in rw le ((l, All-le_trans key x y ys l h.0), h)
  | inr gt ↦ rw gt (All-insert_by key y x ys (ground arith) h.0, insert_by-IsSortedBy key x ys h.1)
]

pub sort_by_key-IsSortedBy :
    {A : Type 0} (key : A → ℕ) (xs : List A) → IsSortedBy key (sort_by_key key xs)
unfolding sort_by_key
sort_by_key-IsSortedBy key [] = tt
sort_by_key-IsSortedBy key (x ∷ xs) =
    insert_by-IsSortedBy key x (sort_by_key key xs) (sort_by_key-IsSortedBy key xs)

-- What the strategy promises of the healthy targets.
abbrev pub IsArranged : LoadBalanceStrategy → UpstreamPool → List ℕ → Type 0
IsArranged least_connections pool up = IsSortedBy (load pool.targets) up
IsArranged round_robin pool up = Unit
IsArranged random pool up = Unit

-- The promise of `candidates`: every target once, those that are healthy at their test first, least
-- loaded first under that strategy, and the others behind them in the order of the configuration,
-- each with its address.
pub record IsOffer (pool : UpstreamPool) (clock : ℕ → ℕ) (cs : List Candidate) : Type 0 where
  pub up : List ℕ
  pub down : List ℕ
  pub every : Perm (map (λ c. c.index) cs) (indices 0 (length pool.targets))
  pub split : map (λ c. c.index) cs ≡ up ++ down
  pub healthy : All (λ i. is_healthy pool clock i ≡ true) up
  pub cooling : All (λ i. is_healthy pool clock i ≡ false) down
  pub arranged : IsArranged pool.strategy pool up
  pub configured : IsIncreasing down
  pub addressed : All (IsAddressed pool.targets) cs

Bool_eq_prop : (a b : Bool) → IsProp (a ≡ b)
Bool_eq_prop = hlevel

module _ (shuffle : List ℕ → List ℕ) (shuffle-Perm : (xs : List ℕ) → Perm (shuffle xs) xs)
    (pool : UpstreamPool) (clock : ℕ → ℕ) where
  arrange-IsArranged :
      (s : LoadBalanceStrategy) (xs : List ℕ) → IsArranged s pool (arrange shuffle pool s xs).0
  unfolding arrange
  arrange-IsArranged round_robin xs = tt
  arrange-IsArranged random xs = tt
  arrange-IsArranged least_connections xs = sort_by_key-IsSortedBy (load pool.targets) xs

  -- If the shuffle of the random strategy only reorders, every call of `candidates` keeps the promise.
  pub candidates-IsOffer : IsOffer pool clock (candidates shuffle clock pool).0
  unfolding candidates order tiers
  candidates-IsOffer =
      let whole = order-Perm shuffle shuffle-Perm pool clock in
      let in_range =
        All-Perm (λ i. i < length pool.targets) (λ i. le_prop) whole
          (All-of_Mem (λ i. i < length pool.targets) (indices 0 (length pool.targets))
            (λ i m. omega (arith, mem-indices i 0 (length pool.targets) m))) in
      let (same, addressed) = lookup_all_lem pool.targets (order shuffle clock pool) in_range in
      record {
        up = (arrange shuffle pool pool.strategy (tiers pool clock).0).0;
        down = (tiers pool clock).1;
        every = rw same whole;
        split = same;
        healthy =
            All-Perm (λ i. is_healthy pool clock i ≡ true) (λ i. Bool_eq_prop _ true)
              (arrange-Perm shuffle shuffle-Perm pool pool.strategy (tiers pool clock).0)
              (partition-All (is_healthy pool clock) (indices 0 (length pool.targets))).0;
        cooling = (partition-All (is_healthy pool clock) (indices 0 (length pool.targets))).1;
        arranged = arrange-IsArranged pool.strategy (tiers pool clock).0;
        configured =
            (partition-IsIncreasing (is_healthy pool clock) (indices 0 (length pool.targets))
              (indices-IsIncreasing 0 (length pool.targets))).1;
        addressed = addressed;
      }
