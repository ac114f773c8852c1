-- ===== src/Proxy/Passage.antt =====
-- One policy of a chain while `evaluate_all` of src/core/policy.rs goes through all of it.
use protect.Core.Action.{Action}
use protect.Policy.{Decision, allow, block, PolicyContext, evaluate_all}
use protect.Prelude.{
  ℕ, suc, ◌≡◌, ◌⊎◌, refl, ap, sym, inl, inr, List, [], ◌∷◌, ◌++◌, length, true, false,
  text_equality,
}
use protect.Threshold.{ThresholdPolicy, evaluate, threshold_policy}
use protect.Threshold.Account.{is_allow}

-- Where a policy stands in the chain after an evaluation of all of it: it was not reached, or it has evaluated
-- the action, and has allowed it if the chain has.
abbrev pub Passed :
    List ThresholdPolicy
    → ThresholdPolicy
    → Action
    → PolicyContext
    → (ℕ → ℕ)
    → Decision × List ThresholdPolicy
    → Type 0
Passed before p action ctx clock (decision, chain) =
    (before' : List ThresholdPolicy) × (p' : ThresholdPolicy) × (after' : List ThresholdPolicy)
    × (length before' ≡ length before)
    × (chain ≡ before' ++ p' ∷ after')
    × (((p' ≡ p) × (is_allow decision ≡ false))
        ⊎ ((p' ≡ (evaluate p action ctx (clock (length before))).1)
            × (is_allow decision ≡ true
                → is_allow (evaluate p action ctx (clock (length before))).0 ≡ true)))

pub evaluate_all-Passed :
    (before : List ThresholdPolicy) (p : ThresholdPolicy) (after : List ThresholdPolicy)
    (action : Action) (ctx : PolicyContext) (clock : ℕ → ℕ)
    → Passed before p action ctx clock (evaluate_all (before ++ p ∷ after) action ctx clock)
unfolding evaluate_all
evaluate_all-Passed [] p after action ctx clock = at_front (evaluate p action ctx (clock 0)) refl
  where
    at_front :
        (first : Decision × ThresholdPolicy)
        → evaluate p action ctx (clock 0) ≡ first
        → Passed [] p action ctx clock (elim first.0 as (λ _. Decision × List ThresholdPolicy) [
          | block reason ↦ (block reason, first.1 ∷ after)
          | allow ↦ (
            (evaluate_all after action ctx (λ i. clock (suc i))).0,
            first.1 ∷ (evaluate_all after action ctx (λ i. clock (suc i))).1,
          )
        ])
    at_front (block reason, p') e =
        ([], p', after, refl, refl, inr (ap (λ x. x.1) (sym e), λ h. absurd (cc)))
    at_front (allow, p') e =
        ([], p', _, refl, refl, inr (ap (λ x. x.1) (sym e), λ h. ap (λ x. is_allow x.0) e))
evaluate_all-Passed (q ∷ before) p after action ctx clock =
    behind (evaluate q action ctx (clock 0))
      (evaluate_all-Passed before p after action ctx (λ i. clock (suc i)))
  where
    behind :
        (first : Decision × ThresholdPolicy)
        → Passed before p action ctx
            (λ i. clock (suc i))
            (evaluate_all (before ++ p ∷ after) action ctx (λ i. clock (suc i)))
        → Passed
            (q ∷ before)
            p
            action
            ctx
            clock
            (elim first.0 as (λ _. Decision × List ThresholdPolicy) [
              | block reason ↦ (block reason, first.1 ∷ before ++ p ∷ after)
              | allow ↦ (
                (evaluate_all (before ++ p ∷ after) action ctx (λ i. clock (suc i))).0,
                first.1 ∷ (evaluate_all (before ++ p ∷ after) action ctx (λ i. clock (suc i))).1,
              )
            ])
    behind (block reason, q') h = (q' ∷ before, p, after, refl, refl, inl (refl, refl))
    behind (allow, q') (before', p', after', len, split, how) =
        (q' ∷ before', p', after', ap suc len, ap (◌∷◌ q') split, how)
