-- ===== src/Proxy/Identities.antt =====
-- Which identity a connection acts under (src/proxy.rs, `BindState`).
use mathlib.Core.Option.{some-injective}
use protect.Core.Connector.{Connector}
use protect.Core.Identity.{SocketAddr, Identity, from_peer_addr, from_bind_dn}
use protect.Policy.{Policy}
use protect.Proxy.{
  BindState, Output, to_upstream, to_client, settle, settle_response, stage_claim, make_room,
  resolve_pending_bind, max_pending_binds,
}
use protect.Proxy.Pending.{Room, stage_pending_bind-Room}
use protect.Proxy.Verdicts.{handle_client_frame-Handled}
use protect.Proxy.Session.{
  Session, Event, client, upstream, Step, client_frame, client_written, upstream_frame,
  upstream_written, elsewhere, Reach, opened, next,
}
use protect.Prelude.{
  bind_ok, bind_err, ℕ, ◌≤◌, ◌≡◌, ◌⊎◌, refl, ap, sym, subst, ◌∙◌, inl, inr, Bool, true, false,
  Option, none, some, List, [], ◌∷◌, ◌++◌, ok, Result-cases, Option-cases, Bool-cases, Text, length,
  get, remove, get-remove, length-remove-le, nat_equality, nat_eq, nat_eq_iff, if◌then◌else◌, arith,
}

found_before :
    (pending : List (ℕ × Text)) (k j : ℕ) (d : Text)
    → get j (remove k pending) ≡ some d
    → get j pending ≡ some d
found_before pending k j d q =
    let r = sym (get-remove k j pending) ∙ q in
    elim (Bool-cases (nat_eq k j)) [
      | inl same ↦ let t = rw same at r in absurd (cc)
      | inr other ↦ rw other at r
    ]

module _ {E : Type 0} (connector : Connector E) where
  -- A bind of this DN has been among the client's frames, under this message ID.
  abbrev pub Staged : List Event → ℕ → Text → Type 0
  Staged log id dn =
      (later : List Event) × (frame : Text) × (output : Output) × (earlier : List Event) × (log
        ≡ later ++ client frame output ∷ earlier)
      × (connector.bind_request frame ≡ ok (some (id, dn)))

  -- And the upstream has answered it with success, later.
  abbrev pub Earned : List Event → Text → Type 0
  Earned log dn =
      (later : List Event) × (frame : Text) × (earlier : List Event) × (id : ℕ) × (log
        ≡ later ++ upstream frame ∷ earlier)
      × (connector.bind_response frame ≡ ok (some (id, true)))
      × Staged earlier id dn

  -- The peer's address, or a DN that has been earned.
  abbrev pub IsRightful : SocketAddr → List Event → Identity → Type 0
  IsRightful peer log identity =
      (identity ≡ from_peer_addr peer)
      ⊎ ((dn : Text) × (identity ≡ from_bind_dn dn) × Earned log dn)

  Staged-cons :
      (e : Event) (log : List Event) (id : ℕ) (dn : Text)
      → Staged log id dn
      → Staged (e ∷ log) id dn
  Staged-cons e log id dn (later, frame, output, earlier, p, q) =
      (e ∷ later, frame, output, earlier, ap (◌∷◌ e) p, q)

  pub IsRightful-cons :
      (peer : SocketAddr) (e : Event) (log : List Event) (identity : Identity)
      → IsRightful peer log identity
      → IsRightful peer (e ∷ log) identity
  IsRightful-cons peer e log identity (inl p) = inl p
  IsRightful-cons peer e log identity (inr (dn, p, (later, frame, earlier, id, q, r, staged))) =
      inr (dn, p, (e ∷ later, frame, earlier, id, ap (◌∷◌ e) q, r, staged))

  -- What holds of the shared state at every moment.
  pub record IsSafe (peer : SocketAddr) (log : List Event) (state : BindState) : Type 0 where
    pub few : length state.pending ≤ max_pending_binds
    pub staged : (id : ℕ) (dn : Text) → get id state.pending ≡ some dn → Staged log id dn
    pub rightful : IsRightful peer log state.identity

  IsSafe-cons :
      (peer : SocketAddr) (e : Event) (log : List Event) (state : BindState)
      → IsSafe peer log state
      → IsSafe peer (e ∷ log) state
  IsSafe-cons peer e log state v = record {
    few = v.few;
    staged = λ id dn p. Staged-cons e log id dn (v.staged id dn p);
    rightful = IsRightful-cons peer e log state.identity v.rightful;
  }

  found_with-Room :
      (pending : List (ℕ × Text)) (id j : ℕ) (d : Text)
      → Room pending id
      → get j (make_room pending id) ≡ some d
      → get j pending ≡ some d
  found_with-Room pending id j d (inl (same, why)) q = rw same at q
  found_with-Room pending id j d (inr (k, known, least, dropped, full, fewer)) q =
      found_before pending k j d (rw dropped at q)

  staged_claim :
      (log : List Event) (pending : List (ℕ × Text)) (frame : Text) (output : Output) (id : ℕ)
      (dn : Text) (j : ℕ) (d : Text)
      → connector.bind_request frame ≡ ok (some (id, dn))
      → Room pending id
      → (if nat_eq id j then some dn else get j (make_room pending id)) ≡ some d
      → ((i : ℕ) (c : Text) → get i pending ≡ some c → Staged log i c)
      → Staged (client frame output ∷ log) j d
  staged_claim log pending frame output id dn j d p room q before =
      elim (Bool-cases (nat_eq id j)) [
        | inl same ↦
            let e = (nat_eq_iff id j).0 same in
            let f = some-injective dn d (rw same at q) in
            (
              [],
              frame,
              output,
              log,
              refl,
              subst (λ i. connector.bind_request frame ≡ ok (some (i, d))) e
                  (subst (λ c. connector.bind_request frame ≡ ok (some (id, c))) f p),
            )
        | inr other ↦
            Staged-cons (client frame output) log j d
              (before j d (found_with-Room pending id j d room (rw other at q)))
      ]

  stage_claim-IsSafe :
      (peer : SocketAddr) (log : List Event) (state : BindState) (frame : Text) (output : Output)
      (claim : Option (ℕ × Text))
      → connector.bind_request frame ≡ ok claim
      → IsSafe peer log state
      → IsSafe peer (client frame output ∷ log) (stage_claim state claim)
  stage_claim-IsSafe peer log state frame output none p v =
      IsSafe-cons peer (client frame output) log state v
  stage_claim-IsSafe peer log state frame output (some (id, dn)) p v =
      let (few, room, found) = stage_pending_bind-Room state.pending id dn v.few in
      record {
        few = few;
        staged = λ j d q.
            staged_claim log state.pending frame output id dn j d p room (sym (found j) ∙ q)
              v.staged;
        rightful = IsRightful-cons peer (client frame output) log state.identity v.rightful;
      }

  settled :
      (peer : SocketAddr) (log : List Event) (state : BindState) (frame : Text) (id : ℕ) (dn : Text)
      (success : Bool)
      → connector.bind_response frame ≡ ok (some (id, success))
      → get id state.pending ≡ some dn
      → IsSafe peer log state
      → IsSafe peer (upstream frame ∷ log) (record {
        identity = if success then from_bind_dn dn else state.identity;
        pending = remove id state.pending;
      })
  settled peer log state frame id dn true p e v = record {
    few = omega (arith, length-remove-le id state.pending, v.few);
    staged = λ j d q.
        Staged-cons (upstream frame) log j d (v.staged j d (found_before state.pending id j d q));
    rightful = inr (dn, refl, ([], frame, log, id, refl, p, v.staged id dn e));
  }
  settled peer log state frame id dn false p e v = record {
    few = omega (arith, length-remove-le id state.pending, v.few);
    staged = λ j d q.
        Staged-cons (upstream frame) log j d (v.staged j d (found_before state.pending id j d q));
    rightful = IsRightful-cons peer (upstream frame) log state.identity v.rightful;
  }

  settle_response-IsSafe :
      (peer : SocketAddr) (log : List Event) (state : BindState) (frame : Text)
      (response : Option (ℕ × Bool))
      → connector.bind_response frame ≡ ok response
      → IsSafe peer log state
      → IsSafe peer (upstream frame ∷ log) (settle_response state response)
  unfolding settle_response
  settle_response-IsSafe peer log state frame none p v =
      IsSafe-cons peer (upstream frame) log state v
  settle_response-IsSafe peer log state frame (some (id, success)) p v =
      elim (Option-cases (get id state.pending)) [
        | inl e ↦ rw (e, settle) (IsSafe-cons peer (upstream frame) log state v)
        | inr (dn, e) ↦ rw (e, settle) (settled peer log state frame id dn success p e v)
      ]

  resolve-inverse :
      (state state' : BindState) (frame : Text)
      → resolve_pending_bind connector state frame ≡ ok state'
      → (response : Option (ℕ × Bool)) × (connector.bind_response frame ≡ ok response)
        × (state' ≡ settle_response state response)
  unfolding resolve_pending_bind
  resolve-inverse state state' frame p = elim (Result-cases (connector.bind_response frame)) [
    | inl (response, e) ↦ (response, e, let q = sym (bind_ok _ e) ∙ p in cc)
    | inr (e, broken) ↦ let q = sym (bind_err _ broken) ∙ p in absurd (cc)
  ]

module _ {E P : Type 0} ⦃policy : Policy P⦄ (connector : Connector E) where
  Step-IsSafe :
      (peer : SocketAddr) (s t : Session P) (log log' : List Event)
      → Step connector s log t log'
      → IsSafe connector peer log s.bind_state
      → IsSafe connector peer log' t.bind_state
  Step-IsSafe peer s t log log' (client_frame frame clock output state policies idle p) v =
      let (claim, e, same, verdict) =
        handle_client_frame-Handled connector s.bind_state s.policies clock frame output state
          policies p in
      subst (IsSafe connector peer (client frame output ∷ log)) (sym same)
        (stage_claim-IsSafe connector peer log s.bind_state frame output claim e v)
  Step-IsSafe peer s t log log' (client_written (to_upstream frame) p) v = v
  Step-IsSafe peer s t log log' (client_written (to_client frame) p) v = v
  Step-IsSafe peer s t log log' (upstream_frame frame state idle p) v =
      let (response, e, same) = resolve-inverse connector s.bind_state state frame p in
      subst (IsSafe connector peer (upstream frame ∷ log)) (sym same)
        (settle_response-IsSafe connector peer log s.bind_state frame response e v)
  Step-IsSafe peer s t log log' (upstream_written frame p) v = v
  Step-IsSafe peer s t log log' (elsewhere policies whole) v = v

  -- Whatever a connection's frames are, and however its relays and other connections take turns: at most 1024
  -- claims wait, each was made by a bind of the client, and the identity is that of the peer's address
  -- or of a DN whose bind, sent by the client, the upstream has answered with success afterwards.
  pub Reach-IsSafe :
      (peer : SocketAddr) (policies : List P) (s : Session P) (log : List Event)
      → Reach connector peer policies s log
      → IsSafe connector peer log s.bind_state
  unfolding get
  Reach-IsSafe peer policies s log opened = record {
    few = omega arith;
    staged = λ id dn p. absurd (cc);
    rightful = inl refl;
  }
  Reach-IsSafe peer policies t log' (next {s = s} {log = log} r st) =
      Step-IsSafe peer s t log log' st (Reach-IsSafe peer policies s log r)
