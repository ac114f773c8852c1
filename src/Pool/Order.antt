-- ===== src/Pool/Order.antt =====
-- The order in which targets are tried (src/core/upstream_pool.rs, `candidates`).
use mathlib.Core.List.Perm
use mathlib.Core.List.{
  Perm, Mem, mem-cons, not-mem-nil, mem-cons_self, mem-cons_of_mem, perm_middle, perm_append_comm,
}
use mathlib.Core.Logic.Or
use native.Mathlib.Bridge.{le_prop}
use protect.Pool.{
  Target, Candidate, UpstreamPool, LoadBalanceStrategy, round_robin, random, least_connections,
  is_healthy, tiers, partition, load, insert_by, sort_by_key, rotate_left, arrange, order,
  lookup_all,
}
use protect.Prelude.{
  ℕ, zero, suc, ◌+◌, ◌%◌, ◌<◌, Bool, true, false, some, List, [], ◌∷◌, ◌++◌, ◌≡◌, refl, inl, inr,
  ap, sym, map, length, take, drop, get_elem?, take-append-drop, indices, All, leb, arith,
  Bool-cases, subst,
}

pub partition-Perm :
    (p : ℕ → Bool) (is : List ℕ) → Perm ((partition p is).0 ++ (partition p is).1) is
unfolding partition
partition-Perm p [] = Perm.refl []
partition-Perm p (i ∷ is) = elim (Bool-cases (p i)) [
  | inl up ↦ rw up (Perm.cons i (partition-Perm p is))
  | inr down ↦ rw down (
      Perm.trans (perm_middle (partition p is).0 (partition p is).1)
        (Perm.cons i (partition-Perm p is)))
]

-- Both halves keep the order of the list.
abbrev pub IsIncreasing : List ℕ → Type 0
IsIncreasing [] = Unit
IsIncreasing (x ∷ xs) = All (λ y. x < y) xs × IsIncreasing xs

All-partition :
    (P : ℕ → Type 0) (p : ℕ → Bool) (is : List ℕ)
    → All P is
    → All P (partition p is).0 × All P (partition p is).1
unfolding partition
All-partition P p [] all = (tt, tt)
All-partition P p (i ∷ is) all = elim (Bool-cases (p i)) [
  | inl up ↦ let (u, d) = All-partition P p is all.1 in rw up ((all.0, u), d)
  | inr down ↦ let (u, d) = All-partition P p is all.1 in rw down (u, (all.0, d))
]

pub partition-IsIncreasing :
    (p : ℕ → Bool) (is : List ℕ)
    → IsIncreasing is
    → IsIncreasing (partition p is).0 × IsIncreasing (partition p is).1
unfolding partition
partition-IsIncreasing p [] h = (tt, tt)
partition-IsIncreasing p (i ∷ is) h = elim (Bool-cases (p i)) [
  | inl up ↦
      let (u, d) = partition-IsIncreasing p is h.1 in
      rw up (((All-partition (λ y. i < y) p is h.0).0, u), d)
  | inr down ↦
      let (u, d) = partition-IsIncreasing p is h.1 in
      rw down (u, ((All-partition (λ y. i < y) p is h.0).1, d))
]

All-indices : (i j n : ℕ) → i < j → All (λ y. i < y) (indices j n)
All-indices i j zero h = tt
All-indices i j (suc n) h = (h, All-indices i (suc j) n (omega arith))

pub indices-IsIncreasing : (i n : ℕ) → IsIncreasing (indices i n)
indices-IsIncreasing i zero = tt
indices-IsIncreasing i (suc n) =
    (All-indices i (suc i) n (omega arith), indices-IsIncreasing (suc i) n)

pub partition-All :
    (p : ℕ → Bool) (is : List ℕ)
    → All (λ i. p i ≡ true) (partition p is).0 × All (λ i. p i ≡ false) (partition p is).1
unfolding partition
partition-All p [] = (tt, tt)
partition-All p (i ∷ is) = elim (Bool-cases (p i)) [
  | inl up ↦ let (u, d) = partition-All p is in rw up ((up, u), d)
  | inr down ↦ let (u, d) = partition-All p is in rw down (u, (down, d))
]

insert_by-Perm :
    {A : Type 0} (key : A → ℕ) (x : A) (ys : List A) → Perm (insert_by key x ys) (x ∷ ys)
unfolding insert_by
insert_by-Perm key x [] = Perm.refl (x ∷ [])
insert_by-Perm key x (y ∷ ys) = elim (Bool-cases (leb (key x) (key y))) [
  | inl le ↦ rw le (Perm.refl (x ∷ y ∷ ys))
  | inr gt ↦ rw gt (Perm.trans (Perm.cons y (insert_by-Perm key x ys)) (Perm.swap x y ys))
]

pub sort_by_key-Perm : {A : Type 0} (key : A → ℕ) (xs : List A) → Perm (sort_by_key key xs) xs
unfolding sort_by_key
sort_by_key-Perm key [] = Perm.refl []
sort_by_key-Perm key (x ∷ xs) =
    Perm.trans (insert_by-Perm key x (sort_by_key key xs)) (Perm.cons x (sort_by_key-Perm key xs))

pub rotate_left-Perm : (n : ℕ) (xs : List ℕ) → Perm (rotate_left n xs) xs
unfolding rotate_left
rotate_left-Perm n xs =
    subst (λ (l : List ℕ). Perm (drop n xs ++ take n xs) l) (take-append-drop n xs)
      (perm_append_comm (drop n xs) (take n xs))

module _ (shuffle : List ℕ → List ℕ) (shuffle-Perm : (xs : List ℕ) → Perm (shuffle xs) xs)
    (pool : UpstreamPool) where
  pub arrange-Perm : (s : LoadBalanceStrategy) (xs : List ℕ) → Perm (arrange shuffle pool s xs).0 xs
  unfolding arrange
  arrange-Perm round_robin [] = Perm.refl []
  arrange-Perm round_robin (x ∷ xs) =
      rotate_left-Perm (pool.round_robin_counter % length (x ∷ xs)) (x ∷ xs)
  arrange-Perm random xs = shuffle-Perm xs
  arrange-Perm least_connections xs = sort_by_key-Perm (load pool.targets) xs

  -- The order names every configured target exactly once, whatever the strategy and the health of
  -- the targets.
  pub order-Perm :
      (clock : ℕ → ℕ) → Perm (order shuffle clock pool) (indices 0 (length pool.targets))
  unfolding order tiers
  order-Perm clock =
      Perm.trans
        (Perm.append (arrange-Perm pool.strategy (tiers pool clock).0)
          (Perm.refl (tiers pool clock).1))
        (partition-Perm (is_healthy pool clock) (indices 0 (length pool.targets)))

pub mem-indices : (j i n : ℕ) → Mem j (indices i n) → j < i + n
mem-indices j i zero m = absurd (not-mem-nil m)
mem-indices j i (suc n) m =
    Or.elim le_prop (mem-cons.0 m) (λ e. omega arith)
      (λ later. omega (arith, mem-indices j (suc i) n later))

pub All-of_Mem : (P : ℕ → Type 0) (xs : List ℕ) → ((i : ℕ) → Mem i xs → P i) → All P xs
All-of_Mem P [] h = tt
All-of_Mem P (x ∷ xs) h = (h x mem-cons_self, All-of_Mem P xs (λ i m. h i (mem-cons_of_mem x m)))

Mem-of_All :
    (P : ℕ → Type 0) (prop : (i : ℕ) → IsProp (P i)) (xs : List ℕ)
    → All P xs
    → (i : ℕ) → Mem i xs
    → P i
Mem-of_All P prop [] all i m = absurd (not-mem-nil m)
Mem-of_All P prop (x ∷ xs) all i m =
    Or.elim (prop i) (mem-cons.0 m) (λ e. subst P (sym e) all.0) (Mem-of_All P prop xs all.1 i)

-- What holds of every element holds in any order.
pub All-Perm :
    (P : ℕ → Type 0) (prop : (i : ℕ) → IsProp (P i)) {xs ys : List ℕ}
    → Perm xs ys
    → All P ys
    → All P xs
All-Perm P prop {xs} {ys} perm all =
    All-of_Mem P xs (λ i m. Mem-of_All P prop ys all i ((Perm.mem_iff perm).0 m))

pub get_elem?_in_range :
    (ts : List Target) (i : ℕ) → i < length ts → (t : Target) × (get_elem? ts i ≡ some t)
get_elem?_in_range [] i h = absurd (omega arith)
get_elem?_in_range (t ∷ ts) zero h = (t, refl)
get_elem?_in_range (t ∷ ts) (suc i) h = get_elem?_in_range ts i (omega arith)

-- In range, no index is lost, and each comes with its own address.
abbrev pub IsAddressed : List Target → Candidate → Type 0
IsAddressed ts c = (t : Target) × (get_elem? ts c.index ≡ some t) × (c.addr ≡ t.addr)

pub lookup_all_lem :
    (ts : List Target) (is : List ℕ)
    → All (λ i. i < length ts) is
    → (map (λ c. c.index) (lookup_all ts is) ≡ is) × All (IsAddressed ts) (lookup_all ts is)
unfolding lookup_all
lookup_all_lem ts [] all = (refl, tt)
lookup_all_lem ts (i ∷ is) all =
    let (t, e) = get_elem?_in_range ts i all.0 in
    let (same, addressed) = lookup_all_lem ts is all.1 in
    rw e (ap (◌∷◌ i) same, ((t, e, refl), addressed))
