-- ===== src/Policy.antt =====
-- src/core/policy.rs: decisions, the `Policy` trait and the chain of policies.
-- The proofs about the chain are in `Policy.Chain`.
pub mod Chain
use protect.Core.Action.{Action}
use protect.Core.Identity.{Identity}
use protect.Prelude.{ℕ, suc, List, [], ◌∷◌, Text}

pub data Decision : Type 0 where
  allow : Decision
  block : Text → Decision

pub record PolicyContext : Type 0 where
  pub identity : Identity

-- The trait. A policy keeps state behind a lock, so an evaluation returns the policy anew; the last
-- argument is the instant that it reads from the clock.
pub record Policy (P : Type 0) : Type 0 where
  pub evaluate : P → Action → PolicyContext → ℕ → Decision × P

module _ {P : Type 0} ⦃policy : Policy P⦄ where
  -- `clock i` is what the i-th policy reads.
  unfoldable pub evaluate_all : List P → Action → PolicyContext → (ℕ → ℕ) → Decision × List P
  evaluate_all [] action ctx clock = (allow, [])
  evaluate_all (p ∷ ps) action ctx clock =
      let (decision, p') = policy.evaluate p action ctx (clock 0) in
      let rest = evaluate_all ps action ctx (λ i. clock (suc i)) in
      elim decision [ block reason ↦ (block reason, p' ∷ ps) | allow ↦ (rest.0, p' ∷ rest.1) ]
