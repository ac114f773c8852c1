-- ===== src/Proxy/Verdicts.antt =====
-- What `handle_client_frame` of src/proxy.rs has decided when it writes.
use protect.Core.Action.{Action}
use protect.Core.Connector.{Connector}
use protect.Core.Identity.{Identity}
use protect.Policy.{Decision, allow, block, Policy, evaluate_all}
use protect.Policy.Chain.{length-evaluate_all}
use protect.Proxy.{
  BindState, Output, to_upstream, to_client, stage_claim, respond, police, after_claim,
  handle_client_frame, context,
}
use protect.Prelude.{
  ℕ, ◌≡◌, ◌⊎◌, refl, ap, sym, subst, ◌∙◌, inl, inr, Option, none, some, List, Result, ok, err,
  length, Result-cases, Text, bind_ok, bind_err,
}

ok-injective : {E : Type 0} (r : Result Output E) (a b : Output) → r ≡ ok a → r ≡ ok b → a ≡ b
ok-injective r a b p q = cc

stage_claim-identity :
    (state : BindState) (claim : Option (ℕ × Text))
    → (stage_claim state claim).identity ≡ state.identity
stage_claim-identity state none = refl
stage_claim-identity state (some c) = refl

module _ {E P : Type 0} ⦃policy : Policy P⦄ (connector : Connector E) where
  -- To the upstream goes the frame itself, which is no action or is allowed by the chain; to the client a
  -- rejection of an action that the chain has blocked, with its reason.
  abbrev pub Verdict : List P → (ℕ → ℕ) → Identity → Text → Output → Type 0
  Verdict policies clock identity frame (to_upstream sent) =
      (sent ≡ frame)
      × ((connector.decode frame ≡ ok none)
          ⊎ ((action : Action) × (connector.decode frame ≡ ok (some action))
              × ((evaluate_all policies action (record { identity = identity }) clock).0 ≡ allow)))
  Verdict policies clock identity frame (to_client rejection) =
      (action : Action) × (reason : Text) × (connector.decode frame ≡ ok (some action))
      × ((evaluate_all policies action (record { identity = identity }) clock).0 ≡ block reason)
      × (connector.build_rejection frame reason ≡ ok rejection)

  abbrev pub Handled : BindState → List P → (ℕ → ℕ) → Text → Output → BindState → Type 0
  Handled state policies clock frame output state' =
      (claim : Option (ℕ × Text)) × (connector.bind_request frame ≡ ok claim)
      × (state' ≡ stage_claim state claim)
      × Verdict policies clock state.identity frame output

  respond-Verdict :
      (state : BindState) (policies : List P) (clock : ℕ → ℕ) (frame : Text) (action : Action)
      (output : Output) (d : Decision)
      → connector.decode frame ≡ ok (some action)
      → (evaluate_all policies action (context state) clock).0 ≡ d
      → respond connector frame d ≡ ok output
      → Verdict policies clock state.identity frame output
  unfolding respond
  respond-Verdict state policies clock frame action output allow p q r =
      let e : to_upstream frame ≡ output = cc in
      subst (Verdict policies clock state.identity frame) e (refl, inr (action, p, q))
  respond-Verdict state policies clock frame action output (block reason) p q r =
      elim (Result-cases (connector.build_rejection frame reason)) [
        | inl (rejection, built) ↦
            let e : to_client rejection ≡ output = ok-injective _ _ _ (bind_ok _ built) r in
            subst (Verdict policies clock state.identity frame) e (action, reason, p, q, built)
        | inr (e, broken) ↦ let f = sym (bind_err _ broken) ∙ r in absurd (cc)
      ]

  police-Verdict :
      (state : BindState) (policies : List P) (clock : ℕ → ℕ) (frame : Text) (output : Output)
      (state' : BindState) (policies' : List P) (decoded : Result (Option Action) E)
      → connector.decode frame ≡ decoded
      → police connector state policies clock frame decoded ≡ (ok output, (state', policies'))
      → (state' ≡ state) × Verdict policies clock state.identity frame output
  unfolding police
  police-Verdict state policies clock frame output state' policies' (err e) p q = absurd (cc)
  police-Verdict state policies clock frame output state' policies' (ok none) p q =
      let e : to_upstream frame ≡ output = ok-injective _ _ _ refl (ap (λ x. x.0) q) in
      (ap (λ x. x.1.0) (sym q), subst (Verdict policies clock state.identity frame) e (refl, inl p))
  police-Verdict state policies clock frame output state' policies' (ok (some action)) p q = (
    ap (λ x. x.1.0) (sym q),
    respond-Verdict state policies clock frame action output _ p refl (ap (λ x. x.0) q),
  )

  pub handle_client_frame-Handled :
      (state : BindState) (policies : List P) (clock : ℕ → ℕ) (frame : Text) (output : Output)
      (state' : BindState) (policies' : List P)
      → handle_client_frame connector state policies clock frame ≡ (ok output, (state', policies'))
      → Handled state policies clock frame output state'
  unfolding handle_client_frame after_claim
  handle_client_frame-Handled state policies clock frame output state' policies' p =
      elim (Result-cases (connector.bind_request frame)) [
        | inl (claim, e) ↦
            let (same, verdict) =
              police-Verdict (stage_claim state claim) policies clock frame output state' policies'
                (connector.decode frame) refl (rw e at p) in
            (
              claim,
              e,
              same,
              subst (λ i. Verdict policies clock i frame output) (stage_claim-identity state claim)
                  verdict,
            )
        | inr (e, broken) ↦ let q = rw broken at p in absurd (cc)
      ]

  length-police :
      (state : BindState) (policies : List P) (clock : ℕ → ℕ) (frame : Text)
      (decoded : Result (Option Action) E)
      → length (police connector state policies clock frame decoded).1.1 ≡ length policies
  unfolding police
  length-police state policies clock frame (err e) = refl
  length-police state policies clock frame (ok none) = refl
  length-police state policies clock frame (ok (some action)) =
      length-evaluate_all action (context state) policies clock

  length-after_claim :
      (state : BindState) (policies : List P) (clock : ℕ → ℕ) (frame : Text)
      (claim : Result (Option (ℕ × Text)) E)
      → length (after_claim connector state policies clock frame claim).1.1 ≡ length policies
  unfolding after_claim
  length-after_claim state policies clock frame (err e) = refl
  length-after_claim state policies clock frame (ok claim) =
      length-police (stage_claim state claim) policies clock frame (connector.decode frame)

  -- The chain keeps its policies.
  pub length-handle_client_frame :
      (state : BindState) (policies : List P) (clock : ℕ → ℕ) (frame : Text) (output : Output)
      (state' : BindState) (policies' : List P)
      → handle_client_frame connector state policies clock frame ≡ (ok output, (state', policies'))
      → length policies' ≡ length policies
  unfolding handle_client_frame
  length-handle_client_frame state policies clock frame output state' policies' p =
      ap (λ x. length x.1.1) (sym p)
      ∙ length-after_claim state policies clock frame (connector.bind_request frame)
