-- ===== src/Proxy/Budget.antt =====
-- What all connections together get through to the upstream (src/proxy.rs, `handle_client_frame`, with the
-- policy of src/core/policy/threshold.rs in the chain that they share).
use protect.Core.Connector.{Connector}
use protect.Policy.{Decision}
use protect.Proxy.{Output, handle_client_frame}
use protect.Prelude.{
  ℕ, ◌+◌, ◌≤◌, ◌<◌, ◌≡◌, ◌⊎◌, refl, ap, sym, subst, ◌∙◌, inl, inr, List, [], ◌∷◌, ◌++◌, Result,
  arith, length, replicate, if◌then◌else◌, true, text_eq, text_eq_iff, text_equality,
}
use protect.Threshold.{
  ThresholdConfig, ThresholdPolicy, global, global_history_key, new, evaluate, covers,
  threshold_policy, usize_mod, history_key,
}
use protect.Threshold.Account.{Request, charge, account, IsTimeline, is_allow}
use protect.Threshold.Budget.{global_budget}
use protect.Threshold.Entry.{evaluate-config}
use protect.Threshold.Sliding.{within, within-append}
use protect.Proxy.Passage.{evaluate_all-Passed}
use protect.Proxy.Traffic.{Turn, units, forwarded, IsOrdered, Turned, handled}

-- The account of a policy, over some requests from now on, holds these instants.
abbrev Accounted : ThresholdPolicy → ℕ → List ℕ → Type 0
Accounted p last us =
    (rs : List Request) × IsTimeline last rs
    × ((lo hi : ℕ) → within lo hi us ≤ within lo hi (account global_history_key p rs))

Accounted-earlier :
    (p : ThresholdPolicy) (last now : ℕ) (us : List ℕ)
    → last ≤ now
    → Accounted p now us
    → Accounted p last us
Accounted-earlier p last now us le ([], ordered, holds) = ([], tt, holds)
Accounted-earlier p last now us le (r ∷ rs, (first, ordered), holds) =
    (r ∷ rs, (omega arith, ordered), holds)

Accounted-request :
    (p : ThresholdPolicy) (last : ℕ) (r : Request) (u us : List ℕ)
    → last ≤ r.now
    → (u ≡ []) ⊎ (u ≡ charge p global_history_key r (evaluate p r.action r.ctx r.now).0)
    → Accounted (evaluate p r.action r.ctx r.now).1 r.now us
    → Accounted p last (u ++ us)
unfolding account within
Accounted-request p last r u us le how (rs, ordered, holds) = (
  r ∷ rs,
  (le, ordered),
  λ lo hi. elim how [
    | inl none_ ↦ rw none_ (
        omega (
          arith,
          within-append lo hi (charge p global_history_key r (evaluate p r.action r.ctx r.now).0)
              (account global_history_key (evaluate p r.action r.ctx r.now).1 rs),
          holds lo hi,
        ))
    | inr all ↦ rw all (
        omega (
          arith,
          within-append lo hi (charge p global_history_key r (evaluate p r.action r.ctx r.now).0)
              us,
          within-append lo hi (charge p global_history_key r (evaluate p r.action r.ctx r.now).0)
              (account global_history_key (evaluate p r.action r.ctx r.now).1 rs),
          holds lo hi,
        ))
  ],
)

module _ {E : Type 0} (connector : Connector E) (config : ThresholdConfig) (k : ℕ) where
  charge_allowed :
      (p : ThresholdPolicy) (r : Request) (d : Decision)
      → p.config ≡ config
      → config.scope ≡ global
      → is_allow d ≡ true
      → charge p global_history_key r d ≡ (
          if covers config.operations r.action.operation
          then replicate r.action.blast_radius r.now
          else [])
  charge_allowed p r d same scope allowed =
      let s : p.config.scope ≡ global = ap (λ (c : ThresholdConfig). c.scope) same ∙ scope in
      let own : text_eq (history_key p r.ctx) global_history_key ≡ true =
        rw s ((text_eq_iff global_history_key global_history_key).1 refl) in
      rw (own, allowed, same) (ground arith)

  -- The policy in question, at its place in a chain.
  abbrev IsPlaced : List ThresholdPolicy → ThresholdPolicy → Type 0
  IsPlaced before p = (length before ≡ k) × (p.config ≡ config)

  turn-Accounted :
      (before : List ThresholdPolicy) (p : ThresholdPolicy) (after : List ThresholdPolicy)
      (t : Turn) (ts : List Turn) (last : ℕ) (output : Result Output E)
      (policies' : List ThresholdPolicy)
      → IsPlaced before p
      → config.scope ≡ global
      → last ≤ t.clock k
      → ((before' : List ThresholdPolicy) (p' : ThresholdPolicy) (after' : List ThresholdPolicy)
          → IsPlaced before' p'
          → Accounted p' (t.clock k) (forwarded connector config k (before' ++ p' ∷ after') ts))
      → Turned connector config k (before ++ p ∷ after) t output policies'
      → Accounted p last (
          units config (t.clock k) output (connector.decode t.frame)
          ++ forwarded connector config k policies' ts)
  turn-Accounted before p after t ts last output policies' placed scope le later
        (inl (same, none_)) =
      rw (none_, same)
        (Accounted-earlier p last (t.clock k)
          (forwarded connector config k (before ++ p ∷ after) ts) le (later before p after placed))
  turn-Accounted before p after t ts last output policies' (at_k, mine) scope le later
        (inr (action, ctx, chain, sent)) =
      let (before', p', after', len, split, how) =
        evaluate_all-Passed before p after action ctx t.clock in
      let r : Request = record { action = action; ctx = ctx; now = t.clock k } in
      rw (chain ∙ split) (elim how [
        | inl (kept, blocked) ↦
            let unsent : units config (t.clock k) output (connector.decode t.frame) ≡ [] =
              elim sent [ inl none_ ↦ none_ | inr (allowed, e) ↦ absurd (cc) ] in
            rw unsent (
              Accounted-earlier p last (t.clock k) _ le (
                subst
                  (λ q.
                    Accounted q (t.clock k)
                      (forwarded connector config k (before' ++ p' ∷ after') ts))
                  kept
                  (later before' p' after'
                    (len ∙ at_k, ap (λ (q : ThresholdPolicy). q.config) kept ∙ mine))))
        | inr (evaluated, allows) ↦
            let e : p' ≡ (evaluate p action ctx (t.clock k)).1 =
              evaluated ∙ ap (λ j. (evaluate p action ctx (t.clock j)).1) at_k in
            Accounted-request p last r _ _ le
              (elim sent [
                | inl none_ ↦ inl none_
                | inr (allowed, all) ↦ inr (
                    all
                    ∙ sym (
                        charge_allowed p r _ mine scope (
                          subst (λ j. is_allow (evaluate p action ctx (t.clock j)).0 ≡ true) at_k
                            (allows allowed))))
              ])
              (subst
                (λ q.
                  Accounted q (t.clock k)
                    (forwarded connector config k (before' ++ p' ∷ after') ts))
                e
                (later before' p' after' (
                  len ∙ at_k,
                  ap (λ (q : ThresholdPolicy). q.config) e
                      ∙ (evaluate-config p action ctx (t.clock k) ∙ mine),
                )))
      ])

  -- What is forwarded connector config k is in the account of the policy, over the requests that have reached it.
  forwarded-Accounted :
      (before : List ThresholdPolicy) (p : ThresholdPolicy) (after : List ThresholdPolicy)
      (ts : List Turn) (last : ℕ)
      → IsPlaced before p
      → config.scope ≡ global
      → IsOrdered connector config k last ts
      → Accounted p last (forwarded connector config k (before ++ p ∷ after) ts)
  unfolding forwarded within handle_client_frame
  forwarded-Accounted before p after [] last placed scope ordered = ([], tt, λ lo hi. omega arith)
  forwarded-Accounted before p after (t ∷ ts) last placed scope (le, ordered) =
      turn-Accounted before p after t ts last _ _ placed scope le
        (λ before' p' after' placed'.
          forwarded-Accounted before' p' after' ts (t.clock k) placed' scope ordered)
        (handled connector config k (before ++ p ∷ after) t (connector.bind_request t.frame))

-- Anywhere in a chain of threshold policies that all connections share, let a new policy have the global scope
-- and two limits that together are below 2^64. Whatever the frames of all connections are, in
-- whatever state each connection is and in whatever order they are handled, if the clock of that
-- policy does not run backwards, the actions that it covers and that are sent to the upstream within
-- any window of the configured length have at most max_per_window units of blast radius.
pub forwarded_budget :
    {E : Type 0} (connector : Connector E) (config : ThresholdConfig)
    (before after : List ThresholdPolicy) (ts : List Turn)
    → config.scope ≡ global
    → config.max_per_window + config.max_per_request < usize_mod
    → IsOrdered connector config (length before) 0 ts
    → (lo : ℕ)
    → within lo
        (lo + config.window)
        (forwarded connector config (length before) (before ++ new config ∷ after) ts)
      ≤ config.max_per_window
forwarded_budget connector config before after ts scope fits ordered lo =
    let (rs, timeline, holds) =
      forwarded-Accounted connector config (length before) before (new config) after ts 0
        (refl, refl) scope ordered in
    omega (arith, holds lo (lo + config.window), global_budget config rs scope timeline fits lo)
