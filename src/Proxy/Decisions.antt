-- ===== src/Proxy/Decisions.antt =====
-- What is decided of the frames of a client in a run of a connection (src/proxy.rs, `handle_client_frame`).
use protect.Core.Connector.{Connector}
use protect.Core.Identity.{SocketAddr}
use protect.Policy.{Policy}
use protect.Proxy.{to_upstream, to_client}
use protect.Proxy.Identities.{IsSafe, IsRightful, Reach-IsSafe}
use protect.Proxy.Session.{
  Session, Event, Step, client_frame, client_written, upstream_frame, upstream_written, elsewhere,
  Reach, opened, next,
}
use protect.Proxy.Verdicts.{Verdict, handle_client_frame-Handled, length-handle_client_frame}
use protect.Prelude.{◌≡◌, refl, ◌∙◌, length, List}

module _ {E P : Type 0} ⦃policy : Policy P⦄ (connector : Connector E) where
  -- What a step decides, by the chain of the session at that step: of a frame of the client, under a rightful
  -- identity.
  abbrev pub StepDecided :
      (peer : SocketAddr) (policies : List P) (s : Session P) (log : List Event) (t : Session P)
      (log' : List Event)
      → Step connector s log t log'
      → Type 0
  StepDecided peer policies s log t log' (client_frame frame clock output state policies' idle p) =
      (length s.policies ≡ length policies)
      × IsRightful connector peer log s.bind_state.identity
      × Verdict connector s.policies clock s.bind_state.identity frame output
  StepDecided peer policies s log t log' (client_written output p) = Unit
  StepDecided peer policies s log t log' (upstream_frame frame state idle p) = Unit
  StepDecided peer policies s log t log' (upstream_written frame p) = Unit
  StepDecided peer policies s log t log' (elsewhere policies' whole) = Unit

  -- Of every step of a run.
  abbrev pub Decided :
      (peer : SocketAddr) (policies : List P) (s : Session P) (log : List Event)
      → Reach connector peer policies s log
      → Type 0
  Decided peer policies s log opened = Unit
  Decided peer policies t log' (next {s = s} {log = log} r st) =
      StepDecided peer policies s log t log' st × Decided peer policies s log r

  Step-length :
      (s t : Session P) (log log' : List Event)
      → Step connector s log t log'
      → length t.policies ≡ length s.policies
  Step-length s t log log' (client_frame frame clock output state policies idle p) =
      length-handle_client_frame connector s.bind_state s.policies clock frame output state policies
        p
  Step-length s t log log' (client_written (to_upstream g) p) = refl
  Step-length s t log log' (client_written (to_client g) p) = refl
  Step-length s t log log' (upstream_frame frame state idle p) = refl
  Step-length s t log log' (upstream_written frame p) = refl
  Step-length s t log log' (elsewhere policies whole) = whole

  Reach-length :
      (peer : SocketAddr) (policies : List P) (s : Session P) (log : List Event)
      → Reach connector peer policies s log
      → length s.policies ≡ length policies
  Reach-length peer policies s log opened = refl
  Reach-length peer policies t log' (next {s = s} {log = log} r st) =
      Step-length s t log log' st ∙ Reach-length peer policies s log r

  Step-StepDecided :
      (peer : SocketAddr) (policies : List P) (s t : Session P) (log log' : List Event)
      (st : Step connector s log t log')
      → length s.policies ≡ length policies
      → IsSafe connector peer log s.bind_state
      → StepDecided peer policies s log t log' st
  Step-StepDecided peer policies s t log log'
        (client_frame frame clock output state policies' idle p) whole safe =
      let (claim, e, same, verdict) =
        handle_client_frame-Handled connector s.bind_state s.policies clock frame output state
          policies' p in
      (whole, safe.rightful, verdict)
  Step-StepDecided peer policies s t log log' (client_written output p) whole safe = tt
  Step-StepDecided peer policies s t log log' (upstream_frame frame state idle p) whole safe = tt
  Step-StepDecided peer policies s t log log' (upstream_written frame p) whole safe = tt
  Step-StepDecided peer policies s t log log' (elsewhere policies' kept) whole safe = tt

  pub Reach-Decided :
      (peer : SocketAddr) (policies : List P) (s : Session P) (log : List Event)
      (r : Reach connector peer policies s log)
      → Decided peer policies s log r
  Reach-Decided peer policies s log opened = tt
  Reach-Decided peer policies t log' (next {s = s} {log = log} r st) = (
    Step-StepDecided peer policies s t log log' st (Reach-length peer policies s log r)
        (Reach-IsSafe connector peer policies s log r),
    Reach-Decided peer policies s log r,
  )
