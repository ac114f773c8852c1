-- ===== src/Policy/Chain.antt =====
-- The chain of policies (src/core/policy.rs, `evaluate_all`).
use protect.Core.Action.{Action}
use protect.Policy.{Decision, allow, block, PolicyContext, Policy, evaluate_all}
use protect.Prelude.{ℕ, suc, List, [], ◌∷◌, ◌≡◌, refl, ap, length, Text}

module _ {P : Type 0} ⦃policy : Policy P⦄ (action : Action) (ctx : PolicyContext) where
  -- Every policy of the list allows the action, and `qs` is what they are afterwards.
  pub data Allows : (ℕ → ℕ) → List P → List P → Type 0 where
    nil : {clock : ℕ → ℕ} → Allows clock [] []
    cons :
        {clock : ℕ → ℕ} {p p' : P} {ps qs : List P}
        → policy.evaluate p action ctx (clock 0) ≡ (allow, p')
        → Allows (λ i. clock (suc i)) ps qs
        → Allows clock (p ∷ ps) (p' ∷ qs)

  -- The policies before some policy allow the action, that policy blocks it with `reason`, and those
  -- behind it are as they were.
  pub data Blocks (reason : Text) : (ℕ → ℕ) → List P → List P → Type 0 where
    here :
        {clock : ℕ → ℕ} {p p' : P} {ps : List P}
        → policy.evaluate p action ctx (clock 0) ≡ (block reason, p')
        → Blocks reason clock (p ∷ ps) (p' ∷ ps)
    there :
        {clock : ℕ → ℕ} {p p' : P} {ps qs : List P}
        → policy.evaluate p action ctx (clock 0) ≡ (allow, p')
        → Blocks reason (λ i. clock (suc i)) ps qs
        → Blocks reason clock (p ∷ ps) (p' ∷ qs)

  abbrev pub Outcome : (ℕ → ℕ) → List P → Decision × List P → Type 0
  Outcome clock ps (allow, qs) = Allows clock ps qs
  Outcome clock ps (block reason, qs) = Blocks reason clock ps qs

  Outcome-cons :
      (clock : ℕ → ℕ) (p : P) (ps : List P) (first : Decision × P) (rest : Decision × List P)
      → policy.evaluate p action ctx (clock 0) ≡ first
      → Outcome (λ i. clock (suc i)) ps rest
      → Outcome clock (p ∷ ps) (elim first.0 as (λ _. Decision × List P) [
        | block reason ↦ (block reason, first.1 ∷ ps)
        | allow ↦ (rest.0, first.1 ∷ rest.1)
      ])
  Outcome-cons clock p ps (block reason, p') rest e o = here e
  Outcome-cons clock p ps (allow, p') (allow, qs) e o = cons e o
  Outcome-cons clock p ps (allow, p') (block reason, qs) e o = there e o

  pub length-evaluate_all :
      (ps : List P) (clock : ℕ → ℕ) → length (evaluate_all ps action ctx clock).1 ≡ length ps
  unfolding evaluate_all
  length-evaluate_all [] clock = refl
  length-evaluate_all (p ∷ ps) clock =
      either (policy.evaluate p action ctx (clock 0)) (length-evaluate_all ps (λ i. clock (suc i)))
    where
      either :
          (first : Decision × P)
          → length (evaluate_all ps action ctx (λ i. clock (suc i))).1 ≡ length ps
          → length
              (elim first.0 as (λ _. Decision × List P) [
                | block reason ↦ (block reason, first.1 ∷ ps)
                | allow ↦ (
                  (evaluate_all ps action ctx (λ i. clock (suc i))).0,
                  first.1 ∷ (evaluate_all ps action ctx (λ i. clock (suc i))).1,
                )
              ]).1
            ≡ length (p ∷ ps)
      either (block reason, p') same = refl
      either (allow, p') same = ap suc same

  -- The chain allows an action only if every policy does, and each then has counted it; it blocks with
  -- the reason of the first policy that blocks, and the policies behind that one are unchanged.
  pub evaluate_all-Outcome :
      (ps : List P) (clock : ℕ → ℕ) → Outcome clock ps (evaluate_all ps action ctx clock)
  unfolding evaluate_all
  evaluate_all-Outcome [] clock = nil
  evaluate_all-Outcome (p ∷ ps) clock =
      Outcome-cons clock p ps (policy.evaluate p action ctx (clock 0))
        (evaluate_all ps action ctx (λ i. clock (suc i))) refl
        (evaluate_all-Outcome ps (λ i. clock (suc i)))
