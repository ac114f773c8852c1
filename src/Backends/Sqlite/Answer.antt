-- ===== src/Backends/Sqlite/Answer.antt =====
-- What a sync answers (src/core/policy/store/sqlite.rs, `blocking_sync`).
use mathlib.Core.List.{Perm, nil≢cons}
use mathlib.Core.List.Perm
use protect.Backends.{Row, times_of, IsAnswer, IsAscending}
use protect.Backends.Rows.{times_of-cons, times_of-nil, times_of-Perm}
use protect.Backends.Sqlite.{collect, pushed}
use protect.Core.Identity.{Identity}
use protect.Pool.Tiers.{IsSortedBy}
use protect.Prelude.{
  ℕ, ◌≤◌, Option, none, some, List, [], ◌∷◌, ◌++◌, ◌≡◌, refl, sym, ap, ◌∙◌, get, ◌==◌, get-insert,
  insert, text_equality, text_eq_iff, arith, Bool-cases, inl, inr, All, append_assoc, append-nil,
}

-- Rows in the order of their milliseconds.
abbrev pub IsAscendingRows : List Row → Type 0
IsAscendingRows rows = IsSortedBy (λ (r : Row). r.1) rows

All-times_of :
    (id : Identity) (b : ℕ) (rows : List Row)
    → All (λ (s : Row). b ≤ s.1) rows
    → All (λ t. b ≤ t) (times_of id rows)
All-times_of id b [] all = rw (times_of-nil id) tt
All-times_of id b ((j, t) ∷ rows) all =
    rw (times_of-cons id j t rows) (elim (Bool-cases (j == id)) [
      | inl same ↦ rw same (all.0, All-times_of id b rows all.1)
      | inr other ↦ rw other (All-times_of id b rows all.1)
    ])

times_of-IsAscending :
    (id : Identity) (rows : List Row) → IsAscendingRows rows → IsAscending (times_of id rows)
times_of-IsAscending id [] h = rw (times_of-nil id) tt
times_of-IsAscending id ((j, t) ∷ rows) h =
    rw (times_of-cons id j t rows) (elim (Bool-cases (j == id)) [
      | inl same ↦ rw same (All-times_of id t rows h.0, times_of-IsAscending id rows h.1)
      | inr other ↦ rw other (times_of-IsAscending id rows h.1)
    ])

-- An entry of the map after some pushes.
abbrev extended : Option (List ℕ) → List ℕ → Option (List ℕ)
extended o [] = o
extended o (t ∷ ts) = extended (some (pushed t o)) ts

extended-some : (s ts : List ℕ) → extended (some s) ts ≡ some (s ++ ts)
extended-some s [] = ap some (sym (append-nil s))
extended-some s (t ∷ ts) = extended-some (s ++ (t ∷ [])) ts ∙ ap some (append_assoc s (t ∷ []) ts)

get-collect :
    (id : Identity) (m : List (Identity × List ℕ)) (rows : List Row)
    → get id (collect m rows) ≡ extended (get id m) (times_of id rows)
unfolding collect
get-collect id m [] = rw (times_of-nil id) refl
get-collect id m ((j, t) ∷ rows) =
    get-collect id (insert j (pushed t (get j m)) m) rows
    ∙ rw (get-insert j id (pushed t (get j m)) m, times_of-cons id j t rows)
        (elim (Bool-cases (j == id)) [
          | inl same ↦ let e : j ≡ id = ground (arith, text_eq_iff j id) in rw same (rw e refl)
          | inr other ↦ rw other refl
        ])

extended-IsAnswer : (ts us : List ℕ) → Perm ts us → IsAscending ts → IsAnswer (extended none ts) us
extended-IsAnswer [] us p h = sym (Perm.nil-eq p)
extended-IsAnswer (t ∷ ts) [] p h = absurd (nil≢cons (sym (Perm.eq-nil p)))
extended-IsAnswer (t ∷ ts) (u ∷ us) p h = rw (extended-some (t ∷ []) ts) (p, h, omega arith)

-- If the rows come in order, each identity has all of its own, in order.
pub collect-IsAnswer :
    (id : Identity) (ordered rows : List Row)
    → Perm ordered rows
    → IsAscendingRows ordered
    → IsAnswer (get id (collect [] ordered)) (times_of id rows)
unfolding get
collect-IsAnswer id ordered rows p h = rw (get-collect id [] ordered) (
    extended-IsAnswer (times_of id ordered) (times_of id rows) (times_of-Perm id p)
      (times_of-IsAscending id ordered h))
