-- ===== src/Proxy/Traffic.antt =====
-- The frames of all connections under the chain that they share (src/proxy.rs, `handle_client_frame`).
use protect.Core.Action.{Action}
use protect.Core.Connector.{Connector}
use protect.Policy.{Decision, allow, block, PolicyContext, evaluate_all}
use protect.Proxy.{
  BindState, Output, to_upstream, to_client, stage_claim, respond, police, after_claim,
  handle_client_frame, context,
}
use protect.Prelude.{
  ℕ, ◌≤◌, ◌≡◌, ◌⊎◌, refl, ap, inl, inr, Option, none, some, List, [], ◌∷◌, ◌++◌, Result, ok, err,
  ◌>>=◌, Text, replicate, if◌then◌else◌, true, text_equality,
}
use protect.Threshold.{ThresholdConfig, ThresholdPolicy, covers, threshold_policy}
use protect.Threshold.Account.{is_allow}

-- A frame of some connection, the state of that connection, and what the policies read from the clock.
pub record Turn : Type 0 where
  pub state : BindState
  pub clock : ℕ → ℕ
  pub frame : Text

-- The instants of what is sent to the upstream: one for each unit of the blast radius of an action that the
-- policy with this configuration covers.
abbrev pub units :
    {E : Type 0} → ThresholdConfig → ℕ → Result Output E → Result (Option Action) E → List ℕ
units config now (ok (to_upstream frame)) (ok (some action)) =
    if covers config.operations action.operation then replicate action.blast_radius now else []
units config now (ok (to_upstream frame)) (ok none) = []
units config now (ok (to_upstream frame)) (err e) = []
units config now (ok (to_client frame)) action = []
units config now (err e) action = []

-- The frames of all connections, handled one after the other under the chain that they share; the policy in
-- question is the k-th.
module _ {E : Type 0} (connector : Connector E) (config : ThresholdConfig) (k : ℕ) where
  unfoldable pub forwarded : List ThresholdPolicy → List Turn → List ℕ
  forwarded policies [] = []
  forwarded policies (t ∷ ts) =
      let (output, after) = handle_client_frame connector t.state policies t.clock t.frame in
      units config (t.clock k) output (connector.decode t.frame) ++ forwarded after.1 ts

  -- The clock of the policy does not run backwards.
  abbrev pub IsOrdered : ℕ → List Turn → Type 0
  IsOrdered last [] = Unit {0}
  IsOrdered last (t ∷ ts) = (last ≤ t.clock k) × IsOrdered (t.clock k) ts

  -- What a turn does: nothing for the policies and nothing that counts, or one evaluation of the chain.
  abbrev pub Turned : List ThresholdPolicy → Turn → Result Output E → List ThresholdPolicy → Type 0
  Turned policies t output policies' =
      ((policies' ≡ policies) × (units config (t.clock k) output (connector.decode t.frame) ≡ []))
      ⊎ ((action : Action) × (ctx : PolicyContext) × (policies'
            ≡ (evaluate_all policies action ctx t.clock).1)
          × ((units config (t.clock k) output (connector.decode t.frame) ≡ [])
              ⊎ ((is_allow (evaluate_all policies action ctx t.clock).0 ≡ true)
                  × (units config (t.clock k) output (connector.decode t.frame) ≡ (
                      if covers config.operations action.operation
                      then replicate action.blast_radius (t.clock k)
                      else [])))))

  responded :
      (policies : List ThresholdPolicy) (t : Turn) (action : Action) (ctx : PolicyContext)
      (d : Decision)
      → connector.decode t.frame ≡ ok (some action)
      → (evaluate_all policies action ctx t.clock).0 ≡ d
      → Turned policies t (respond connector t.frame d) (evaluate_all policies action ctx t.clock).1
  unfolding respond
  responded policies t action ctx allow decoded e =
      inr (action, ctx, refl, inr (ap is_allow e, rw decoded refl))
  responded policies t action ctx (block reason) decoded e =
      rejected (connector.build_rejection t.frame reason)
    where
      rejected :
          (r : Result Text E)
          → Turned policies t
              (r >>= λ rejection. ok (to_client rejection))
              (evaluate_all policies action ctx t.clock).1
      rejected (ok rejection) = inr (action, ctx, refl, inl refl)
      rejected (err failure) = inr (action, ctx, refl, inl refl)

  policed :
      (policies : List ThresholdPolicy) (t : Turn) (state : BindState)
      (r : Result (Option Action) E)
      → connector.decode t.frame ≡ r
      → Turned policies t
          (police connector state policies t.clock t.frame r).0
          (police connector state policies t.clock t.frame r).1.1
  unfolding police
  policed policies t state (err e) decoded = inl (refl, refl)
  policed policies t state (ok none) decoded = inl (refl, rw decoded refl)
  policed policies t state (ok (some action)) decoded =
      responded policies t action (context state)
        (evaluate_all policies action (context state) t.clock).0 decoded refl

  pub handled :
      (policies : List ThresholdPolicy) (t : Turn) (r : Result (Option (ℕ × Text)) E)
      → Turned policies t
          (after_claim connector t.state policies t.clock t.frame r).0
          (after_claim connector t.state policies t.clock t.frame r).1.1
  unfolding after_claim
  handled policies t (err e) = inl (refl, refl)
  handled policies t (ok claim) =
      policed policies t (stage_claim t.state claim) (connector.decode t.frame) refl
