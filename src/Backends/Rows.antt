-- ===== src/Backends/Rows.antt =====
-- The rows of an identity after each operation on rows (src/core/policy/store).
use mathlib.Core.List.{Perm, foldr, filter_map, filter_map-append, perm-replicate}
use mathlib.Core.Nat
use mathlib.Core.List.Perm
use protect.Backends.{Row, row_time, times_of, fresh, latest, last_seen, has_row}
use protect.Core.Identity.{Identity}
use protect.Prelude.{
  ℕ, suc, max, false, Option, none, some, List, [], ◌∷◌, ◌++◌, ◌≡◌, refl, ap, length, ltb, get,
  insert, text_eq_iff, ◌==◌, text_equality, if◌then◌else◌, arith, Bool-cases, inl, inr,
}

pub times_of-append :
    (id : Identity) (rows others : List Row)
    → times_of id (rows ++ others) ≡ times_of id rows ++ times_of id others
unfolding times_of
times_of-append id rows others = filter_map-append (row_time id) rows others

pub times_of-Perm :
    (id : Identity) {rows others : List Row}
    → Perm rows others
    → Perm (times_of id rows) (times_of id others)
unfolding times_of
times_of-Perm id p = Perm.filter_map (row_time id) p

pub times_of-cons :
    (id j : Identity) (t : ℕ) (rows : List Row)
    → times_of id ((j, t) ∷ rows) ≡ (if j == id then t ∷ times_of id rows else times_of id rows)
unfolding times_of filter_map
times_of-cons id j t rows = elim (Bool-cases (j == id)) [
  | inl same ↦ rw same refl
  | inr other ↦ rw other refl
]

pub times_of-nil : (id : Identity) → times_of id [] ≡ []
unfolding times_of filter_map
times_of-nil id = refl

pub has_row-nil :
    (id : Identity) (rows : List Row) → has_row id rows ≡ false → times_of id rows ≡ []
unfolding has_row
has_row-nil id [] h = times_of-nil id
has_row-nil id ((j, t) ∷ rows) h = ground (arith, times_of-cons id j t rows, has_row-nil id rows)

-- A map from identities to numbers, as rows.
abbrev pub to_list : Option ℕ → List ℕ
to_list none = []
to_list (some t) = t ∷ []

pub times_of-insert :
    (id j : Identity) (t : ℕ) (m : List Row)
    → times_of j m ≡ to_list (get j m)
    → times_of id (insert j t m) ≡ (if j == id then t ∷ [] else times_of id m)
unfolding insert get
times_of-insert id j t [] h = ground (arith, times_of-cons id j t [], times_of-nil id)
times_of-insert id j t ((i, s) ∷ m) h = elim (Bool-cases (i == j)) [
  | inl same ↦
      let only : times_of j m ≡ [] = ground (arith, times_of-cons j i s m) in
      rw same (
        ground (
          arith,
          text_eq_iff i j,
          text_eq_iff j id,
          times_of-cons id j t m,
          times_of-cons id i s m,
        ))
  | inr other ↦
      let rest : times_of j m ≡ to_list (get j m) = ground (arith, times_of-cons j i s m) in
      rw other (
        ground (
          arith,
          text_eq_iff i id,
          text_eq_iff j id,
          text_eq_iff i j,
          times_of-cons id i s m,
          times_of-cons id i s (insert j t m),
          times_of-insert id j t m rest,
        ))
]

nat-IsSet : IsSet ℕ
nat-IsSet = hlevel

fresh-filter_map :
    (cutoff : ℕ) (ts : List ℕ)
    → fresh cutoff ts ≡ filter_map (λ t. if ltb t cutoff then none else some t) ts
unfolding fresh filter_map
fresh-filter_map cutoff [] = refl
fresh-filter_map cutoff (t ∷ ts) = elim (Bool-cases (ltb t cutoff)) [
  | inl old ↦ rw old (fresh-filter_map cutoff ts)
  | inr new ↦ rw new (ap (◌∷◌ t) (fresh-filter_map cutoff ts))
]

pub fresh-Perm :
    (cutoff : ℕ) {ts us : List ℕ} → Perm ts us → Perm (fresh cutoff ts) (fresh cutoff us)
fresh-Perm cutoff {ts} {us} p =
    rw (fresh-filter_map cutoff ts, fresh-filter_map cutoff us)
      (Perm.filter_map (λ t. if ltb t cutoff then none else some t) p)

pub fresh-fresh : (cutoff : ℕ) (ts : List ℕ) → fresh cutoff (fresh cutoff ts) ≡ fresh cutoff ts
unfolding fresh
fresh-fresh cutoff [] = refl
fresh-fresh cutoff (t ∷ ts) = ground (arith, fresh-fresh cutoff ts)

latest-foldr : (ts : List ℕ) → latest ts ≡ foldr max 0 ts
unfolding latest
latest-foldr [] = refl
latest-foldr (t ∷ ts) = ap (max t) (latest-foldr ts)

pub latest-Perm : {ts us : List ℕ} → Perm ts us → latest ts ≡ latest us
latest-Perm {ts} {us} p =
    rw (latest-foldr ts, latest-foldr us) (Perm.foldr-eq nat-IsSet max (λ a b x. omega arith) p 0)

pub Perm-last_seen : (l ts : List ℕ) → Perm l (last_seen ts) → l ≡ last_seen ts
Perm-last_seen l [] p = Perm.eq-nil p
Perm-last_seen l (t ∷ ts) p = (perm-replicate nat-IsSet (Nat.suc Nat.zero) (latest (t ∷ ts))).0 p

length-foldr : {A : Type 0} (xs : List A) → length xs ≡ foldr (λ x n. suc n) 0 xs
length-foldr [] = refl
length-foldr (x ∷ xs) = ap suc (length-foldr xs)

pub length-Perm : {A : Type 0} {xs ys : List A} → Perm xs ys → length xs ≡ length ys
length-Perm {A} {xs} {ys} p =
    rw (length-foldr xs, length-foldr ys)
      (Perm.foldr-eq nat-IsSet (λ (x : A) (n : ℕ). suc n) (λ a b x. refl) p 0)
