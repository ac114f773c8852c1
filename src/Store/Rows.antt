-- ===== src/Store/Rows.antt =====
-- What a merge takes of the rows of an identity (src/core/policy/threshold.rs, `merge_history_from_rows`).
use protect.Store.{Anchor, to_instant, in_window, seen, from_row, from_rows}
use mathlib.Core.List.{Mem, mem-cons_self, mem-cons_of_mem}
use mathlib.Core.Option.{some-injective}
use protect.Prelude.{
  All, Option-cases, subst, sym, ap, ◌∙◌, ℕ, ◌≡◌, refl, true, false, ◌⊎◌, Option, none, some, List,
  [], ◌∷◌, nat_eq, text_equality, arith, Bool-cases, inl, inr,
}

from_row-in_window :
    (now window : ℕ) (o : Option ℕ) (i : ℕ)
    → from_row now window o ≡ some i
    → in_window now window i ≡ true
from_row-in_window now window none i p = absurd (cc)
from_row-in_window now window (some j) i p = elim (Bool-cases (in_window now window j)) [
  | inl fresh ↦
      subst (λ k. in_window now window k ≡ true) (some-injective j i (rw fresh at p)) fresh
  | inr stale ↦ let q = rw stale at p in absurd (cc)
]

pub All-from_rows :
    (a : Anchor) (now window : ℕ) (seen_millis rows : List ℕ)
    → All (λ i. in_window now window i ≡ true) (from_rows a now window seen_millis rows)
unfolding from_rows
All-from_rows a now window seen_millis [] = tt
All-from_rows a now window seen_millis (e ∷ es) = elim (Bool-cases (seen e seen_millis)) [
  | inl old ↦ rw old (All-from_rows a now window seen_millis es)
  | inr new ↦ elim (Option-cases (from_row now window (to_instant a e))) [
    | inl none_ ↦ rw (new, none_) (All-from_rows a now window seen_millis es)
    | inr (i, p) ↦
        rw (new, p)
          (
            from_row-in_window now window (to_instant a e) i p,
            All-from_rows a now window (e ∷ seen_millis) es,
          )
  ]
]

All-map : {P Q : ℕ → Type 0} (f : (x : ℕ) → P x → Q x) (xs : List ℕ) → All P xs → All Q xs
All-map f [] all = tt
All-map f (x ∷ xs) all = (f x all.0, All-map f xs all.1)

from_row-some :
    (now window : ℕ) (o : Option ℕ) (i : ℕ) → from_row now window o ≡ some i → o ≡ some i
from_row-some now window none i p = absurd (cc)
from_row-some now window (some j) i p = elim (Bool-cases (in_window now window j)) [
  | inl fresh ↦ rw fresh at p
  | inr stale ↦ let q = rw stale at p in absurd (cc)
]

abbrev pub IsOfRow : Anchor → List ℕ → ℕ → Type 0
IsOfRow a rows i = (e : ℕ) × Mem e rows × (to_instant a e ≡ some i)

IsOfRow-cons :
    (a : Anchor) (e : ℕ) (rows : List ℕ) (i : ℕ) → IsOfRow a rows i → IsOfRow a (e ∷ rows) i
IsOfRow-cons a e rows i (d, at, is) = (d, mem-cons_of_mem e at, is)

-- Each instant that is added is that of a row.
pub from_rows-IsOfRow :
    (a : Anchor) (now window : ℕ) (seen_millis rows : List ℕ)
    → All (IsOfRow a rows) (from_rows a now window seen_millis rows)
unfolding from_rows
from_rows-IsOfRow a now window seen_millis [] = tt
from_rows-IsOfRow a now window seen_millis (e ∷ es) =
    let skipped = All-map (IsOfRow-cons a e es) _ (from_rows-IsOfRow a now window seen_millis es) in
    elim (Bool-cases (seen e seen_millis)) [
      | inl old ↦ rw old skipped
      | inr new ↦ elim (Option-cases (from_row now window (to_instant a e))) [
        | inl none_ ↦ rw (new, none_) skipped
        | inr (i, p) ↦
            rw (new, p)
              (
                (e, mem-cons_self, from_row-some now window (to_instant a e) i p),
                All-map (IsOfRow-cons a e es) _
                    (from_rows-IsOfRow a now window (e ∷ seen_millis) es),
              )
      ]
    ]

-- A row is taken: it has no instant, or one out of the window, or its milliseconds are among these, or its instant
-- is one of those that are added.
abbrev pub IsTaken : ℕ → ℕ → List ℕ → List ℕ → ℕ → Option ℕ → Type 0
IsTaken now window millis news e none = Unit
IsTaken now window millis news e (some i) =
    (in_window now window i ≡ false) ⊎ ((seen e millis ≡ true) ⊎ Mem i news)

-- All rows are.
abbrev pub AreTaken : Anchor → ℕ → ℕ → List ℕ → List ℕ → List ℕ → Type 0
AreTaken a now window millis rows news =
    All (λ e. IsTaken now window millis news e (to_instant a e)) rows

IsTaken-seen :
    (now window : ℕ) (millis news : List ℕ) (e : ℕ) (o : Option ℕ)
    → seen e millis ≡ true
    → IsTaken now window millis news e o
IsTaken-seen now window millis news e none old = tt
IsTaken-seen now window millis news e (some i) old = inr (inl old)

IsTaken-stale :
    (now window : ℕ) (millis news : List ℕ) (e : ℕ) (o : Option ℕ)
    → from_row now window o ≡ none
    → IsTaken now window millis news e o
IsTaken-stale now window millis news e none p = tt
IsTaken-stale now window millis news e (some i) p = elim (Bool-cases (in_window now window i)) [
  | inl fresh ↦ let q = rw fresh at p in absurd (cc)
  | inr stale ↦ inl stale
]

IsTaken-added :
    (now window : ℕ) (millis news : List ℕ) (e : ℕ) (o : Option ℕ) (i : ℕ)
    → o ≡ some i
    → Mem i news
    → IsTaken now window millis news e o
IsTaken-added now window millis news e none i p m = tt
IsTaken-added now window millis news e (some j) i p m =
    inr (inr (subst (λ x. Mem x news) (sym (some-injective j i p)) m))

-- A row behind one that has been added as `i`.
IsTaken-later :
    (a : Anchor) (now window : ℕ) (millis news : List ℕ) (e i d : ℕ) (o : Option ℕ)
    → to_instant a e ≡ some i
    → o ≡ to_instant a d
    → IsTaken now window (e ∷ millis) news d o
    → IsTaken now window millis (i ∷ news) d o
unfolding seen
IsTaken-later a now window millis news e i d none p q t = tt
IsTaken-later a now window millis news e i d (some j) p q (inl stale) = inl stale
IsTaken-later a now window millis news e i d (some j) p q (inr (inr m)) =
    inr (inr (mem-cons_of_mem i m))
IsTaken-later a now window millis news e i d (some j) p q (inr (inl old)) =
    elim (Bool-cases (nat_eq e d)) [
      | inl same ↦
          let e_is : e ≡ d = ground arith in
          let r : some j ≡ some i = q ∙ (ap (to_instant a) (sym e_is) ∙ p) in
          inr (inr (subst (λ x. Mem x (i ∷ news)) (sym (some-injective j i r)) mem-cons_self))
      | inr other ↦ inr (inl (rw other at old))
    ]

from_rows_skip :
    (a : Anchor) (now window : ℕ) (millis : List ℕ) (e : ℕ) (es : List ℕ)
    → (seen e millis ≡ true) ⊎ (from_row now window (to_instant a e) ≡ none)
    → from_rows a now window millis (e ∷ es) ≡ from_rows a now window millis es
unfolding from_rows
from_rows_skip a now window millis e es (inl old) = rw old refl
from_rows_skip a now window millis e es (inr none_) = elim (Bool-cases (seen e millis)) [
  | inl old ↦ rw old refl
  | inr new ↦ rw (new, none_) refl
]

from_rows_add :
    (a : Anchor) (now window : ℕ) (millis : List ℕ) (e : ℕ) (es : List ℕ) (i : ℕ)
    → seen e millis ≡ false
    → from_row now window (to_instant a e) ≡ some i
    → from_rows a now window millis (e ∷ es) ≡ i ∷ from_rows a now window (e ∷ millis) es
unfolding from_rows
from_rows_add a now window millis e es i new p = rw (new, p) refl

pub from_rows-IsTaken :
    (a : Anchor) (now window : ℕ) (millis rows : List ℕ)
    → AreTaken a now window millis rows (from_rows a now window millis rows)
from_rows-IsTaken a now window millis [] = tt
from_rows-IsTaken a now window millis (e ∷ es) = elim (Bool-cases (seen e millis)) [
  | inl old ↦
      subst (AreTaken a now window millis (e ∷ es))
        (sym (from_rows_skip a now window millis e es (inl old)))
        (
          IsTaken-seen now window millis _ e (to_instant a e) old,
          from_rows-IsTaken a now window millis es,
        )
  | inr new ↦ elim (Option-cases (from_row now window (to_instant a e))) [
    | inl none_ ↦
        subst (AreTaken a now window millis (e ∷ es))
          (sym (from_rows_skip a now window millis e es (inr none_)))
          (
            IsTaken-stale now window millis _ e (to_instant a e) none_,
            from_rows-IsTaken a now window millis es,
          )
    | inr (i, p) ↦
        let is = from_row-some now window (to_instant a e) i p in
        subst (AreTaken a now window millis (e ∷ es))
          (sym (from_rows_add a now window millis e es i new p))
          (
            IsTaken-added now window millis _ e (to_instant a e) i is mem-cons_self,
            All-map (λ d t. IsTaken-later a now window millis _ e i d (to_instant a d) is refl t) es
                (from_rows-IsTaken a now window (e ∷ millis) es),
          )
  ]
]
