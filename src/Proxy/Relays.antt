-- ===== src/Proxy/Relays.antt =====
-- What a connection sends to either side (src/proxy.rs, `relay_client_requests` and
-- `relay_upstream_responses`).
use protect.Core.Connector.{Connector}
use protect.Core.Identity.{SocketAddr}
use protect.Policy.{Policy}
use protect.Proxy.{BindState, Output, to_upstream, to_client}
use protect.Proxy.Session.{
  Session, Event, client, upstream, Step, client_frame, client_written, upstream_frame,
  upstream_written, elsewhere, Reach, opened, next, Reply, relayed, rejected, write_output,
  write_response,
}
use protect.Prelude.{
  ◌≡◌, refl, ap, sym, ◌∙◌, Option, none, some, List, [], ◌∷◌, ◌++◌, Text, append-nil,
}
use protect.Proxy.Decisions.{Decided, Reach-Decided}

-- The frames that go to the upstream, to the client as rejections, and to the client as responses, in
-- the order in which they were handled.
unfoldable pub forwarded : List Event → List Text
forwarded [] = []
forwarded (client f (to_upstream g) ∷ log) = forwarded log ++ g ∷ []
forwarded (_ ∷ log) = forwarded log

unfoldable pub rejections : List Event → List Text
rejections [] = []
rejections (client f (to_client g) ∷ log) = rejections log ++ g ∷ []
rejections (_ ∷ log) = rejections log

unfoldable pub responses : List Event → List Text
responses [] = []
responses (upstream g ∷ log) = responses log ++ g ∷ []
responses (_ ∷ log) = responses log

-- What is handled and not written yet.
abbrev pub to_forward : Option Output → List Text
to_forward (some (to_upstream g)) = g ∷ []
to_forward _ = []

abbrev pub to_reject : Option Output → List Text
to_reject (some (to_client g)) = g ∷ []
to_reject _ = []

abbrev pub to_relay : Option Text → List Text
to_relay (some g) = g ∷ []
to_relay none = []

-- The client's stream, taken apart.
unfoldable pub relayed_of : List Reply → List Text
relayed_of [] = []
relayed_of (relayed g ∷ rs) = g ∷ relayed_of rs
relayed_of (rejected g ∷ rs) = relayed_of rs

unfoldable pub rejected_of : List Reply → List Text
rejected_of [] = []
rejected_of (rejected g ∷ rs) = g ∷ rejected_of rs
rejected_of (relayed g ∷ rs) = rejected_of rs

relayed_of-append : (xs ys : List Reply) → relayed_of (xs ++ ys) ≡ relayed_of xs ++ relayed_of ys
unfolding relayed_of
relayed_of-append [] ys = refl
relayed_of-append (relayed g ∷ xs) ys = ap (◌∷◌ g) (relayed_of-append xs ys)
relayed_of-append (rejected g ∷ xs) ys = relayed_of-append xs ys

rejected_of-append :
    (xs ys : List Reply) → rejected_of (xs ++ ys) ≡ rejected_of xs ++ rejected_of ys
unfolding rejected_of
rejected_of-append [] ys = refl
rejected_of-append (rejected g ∷ xs) ys = ap (◌∷◌ g) (rejected_of-append xs ys)
rejected_of-append (relayed g ∷ xs) ys = rejected_of-append xs ys

module _ {E P : Type 0} ⦃policy : Policy P⦄ (connector : Connector E) where
  -- Both streams of a connection are what its frames have led to.
  pub record IsRelayed (peer : SocketAddr) (log : List Event) (s : Session P) : Type 0 where
    pub upwards : s.sent_upstream ++ to_forward s.client_output ≡ forwarded log
    pub rejecting : rejected_of s.sent_client ++ to_reject s.client_output ≡ rejections log
    pub downwards : relayed_of s.sent_client ++ to_relay s.upstream_output ≡ responses log

  handled-IsRelayed :
      (peer : SocketAddr) (log : List Event) (s : Session P) (frame : Text) (output : Output)
      (state : BindState) (policies : List P)
      → s.client_output ≡ none
      → IsRelayed peer log s
      → IsRelayed peer
          (client frame output ∷ log)
          (record s { bind_state = state; policies = policies; client_output = some output })
  unfolding forwarded rejections responses
  handled-IsRelayed peer log s frame (to_upstream g) state policies idle v = record {
    upwards =
        ap (λ l. l ++ g ∷ [])
          (sym (append-nil s.sent_upstream)
            ∙ ap (λ o. s.sent_upstream ++ to_forward o) (sym idle)
            ∙ v.upwards);
    rejecting = ap (λ o. rejected_of s.sent_client ++ to_reject o) (sym idle) ∙ v.rejecting;
    downwards = v.downwards;
  }
  handled-IsRelayed peer log s frame (to_client g) state policies idle v = record {
    upwards = ap (λ o. s.sent_upstream ++ to_forward o) (sym idle) ∙ v.upwards;
    rejecting =
        ap (λ l. l ++ g ∷ [])
          (sym (append-nil (rejected_of s.sent_client))
            ∙ ap (λ o. rejected_of s.sent_client ++ to_reject o) (sym idle)
            ∙ v.rejecting);
    downwards = v.downwards;
  }

  write_output-IsRelayed :
      (peer : SocketAddr) (log : List Event) (s : Session P) (output : Output)
      → s.client_output ≡ some output
      → IsRelayed peer log s
      → IsRelayed peer log (write_output output s)
  unfolding rejected_of relayed_of
  write_output-IsRelayed peer log s (to_upstream g) out v = record {
    upwards =
        append-nil (s.sent_upstream ++ g ∷ [])
        ∙ (ap (λ o. s.sent_upstream ++ to_forward o) (sym out) ∙ v.upwards);
    rejecting = ap (λ o. rejected_of s.sent_client ++ to_reject o) (sym out) ∙ v.rejecting;
    downwards = v.downwards;
  }
  write_output-IsRelayed peer log s (to_client g) out v = record {
    upwards = ap (λ o. s.sent_upstream ++ to_forward o) (sym out) ∙ v.upwards;
    rejecting =
        append-nil (rejected_of (s.sent_client ++ rejected g ∷ []))
        ∙ (rejected_of-append s.sent_client (rejected g ∷ [])
            ∙ (ap (λ o. rejected_of s.sent_client ++ to_reject o) (sym out) ∙ v.rejecting));
    downwards =
        ap (λ l. l ++ to_relay s.upstream_output)
          (relayed_of-append s.sent_client (rejected g ∷ [])
            ∙ append-nil (relayed_of s.sent_client))
        ∙ v.downwards;
  }

  arrived-IsRelayed :
      (peer : SocketAddr) (log : List Event) (s : Session P) (frame : Text) (state : BindState)
      → s.upstream_output ≡ none
      → IsRelayed peer log s
      → IsRelayed peer
          (upstream frame ∷ log)
          (record s { bind_state = state; upstream_output = some frame })
  unfolding forwarded rejections responses
  arrived-IsRelayed peer log s frame state idle v = record {
    upwards = v.upwards;
    rejecting = v.rejecting;
    downwards =
        ap (λ l. l ++ frame ∷ [])
          (sym (append-nil (relayed_of s.sent_client))
            ∙ (ap (λ o. relayed_of s.sent_client ++ to_relay o) (sym idle) ∙ v.downwards));
  }

  write_response-IsRelayed :
      (peer : SocketAddr) (log : List Event) (s : Session P) (frame : Text)
      → s.upstream_output ≡ some frame
      → IsRelayed peer log s
      → IsRelayed peer log (write_response frame s)
  unfolding rejected_of relayed_of
  write_response-IsRelayed peer log s frame out v = record {
    upwards = v.upwards;
    rejecting =
        ap (λ l. l ++ to_reject s.client_output)
          (rejected_of-append s.sent_client (relayed frame ∷ [])
            ∙ append-nil (rejected_of s.sent_client))
        ∙ v.rejecting;
    downwards =
        append-nil (relayed_of (s.sent_client ++ relayed frame ∷ []))
        ∙ (relayed_of-append s.sent_client (relayed frame ∷ [])
            ∙ (ap (λ o. relayed_of s.sent_client ++ to_relay o) (sym out) ∙ v.downwards));
  }

  Step-IsRelayed :
      (peer : SocketAddr) (s t : Session P) (log log' : List Event)
      → Step connector s log t log'
      → IsRelayed peer log s
      → IsRelayed peer log' t
  Step-IsRelayed peer s t log log' (client_frame frame clock output state policies idle p) v =
      handled-IsRelayed peer log s frame output state policies idle v
  Step-IsRelayed peer s t log log' (client_written output p) v =
      write_output-IsRelayed peer log s output p v
  Step-IsRelayed peer s t log log' (upstream_frame frame state idle p) v =
      arrived-IsRelayed peer log s frame state idle v
  Step-IsRelayed peer s t log log' (upstream_written frame p) v =
      write_response-IsRelayed peer log s frame p v
  Step-IsRelayed peer s t log log' (elsewhere policies whole) v = record {
    upwards = v.upwards;
    rejecting = v.rejecting;
    downwards = v.downwards;
  }

  IsRelayed-Reach :
      (peer : SocketAddr) (policies : List P) (s : Session P) (log : List Event)
      → Reach connector peer policies s log
      → IsRelayed peer log s
  unfolding forwarded rejections responses rejected_of relayed_of
  IsRelayed-Reach peer policies s log opened = record {
    upwards = refl;
    rejecting = refl;
    downwards = refl;
  }
  IsRelayed-Reach peer policies t log' (next {s = s} {log = log} r st) =
      Step-IsRelayed peer s t log log' st (IsRelayed-Reach peer policies s log r)

  -- Whatever a connection's frames are, and however its relays and other connections, which may change the state of
  -- the policies but not the chain, take turns: what the upstream gets are frames of the client as they were, in
  -- their order, each of them no action or one that every policy of the chain, in its state at that
  -- moment, has allowed under a rightful identity; the client gets a rejection, with the chain's
  -- reason at that moment, for each of its other frames, in their order, and each response of the
  -- upstream, as it was and in order.
  pub Reach-IsRelayed :
      (peer : SocketAddr) (policies : List P) (s : Session P) (log : List Event)
      (r : Reach connector peer policies s log)
      → IsRelayed peer log s × Decided connector peer policies s log r
  Reach-IsRelayed peer policies s log r =
      (IsRelayed-Reach peer policies s log r, Reach-Decided connector peer policies s log r)
