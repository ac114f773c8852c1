-- ===== src/Proxy/Reuse.antt =====
-- Two binds under one message ID (src/proxy.rs, `stage_pending_bind` and `resolve_pending_bind`).
use protect.Core.Connector.{Connector}
use protect.Core.Identity.{from_bind_dn}
use protect.Proxy.{
  BindState, stage_claim, stage_pending_bind, make_room, settle, settle_response,
  resolve_pending_bind,
}
use protect.Prelude.{
  ℕ, ◌≡◌, refl, ◌∙◌, true, false, some, ok, bind_ok, Text, get, remove, get-insert, get-remove,
  nat_equality, nat_eq, nat_eq_iff,
}

same_id : (id : ℕ) → nat_eq id id ≡ true
same_id id = (nat_eq_iff id id).1 refl

staged_claim :
    (state : BindState) (id : ℕ) (dn : Text)
    → get id (stage_claim state (some (id, dn))).pending ≡ some dn
unfolding stage_pending_bind
staged_claim state id dn = get-insert id id dn (make_room state.pending id) ∙ rw (same_id id) refl

module _ {E : Type 0} (connector : Connector E) where
  -- If a client sends a second bind under the message ID of one that has not been answered, and the upstream
  -- then accepts the first and refuses the second, the connection takes the DN of the second.
  pub reused_id :
      (state : BindState) (id : ℕ) (first second : Text) (accepted refused : Text)
      → connector.bind_response accepted ≡ ok (some (id, true))
      → connector.bind_response refused ≡ ok (some (id, false))
      → (taken : BindState) × (resolve_pending_bind connector
            (stage_claim (stage_claim state (some (id, first))) (some (id, second)))
            accepted
          ≡ ok taken)
        × (resolve_pending_bind connector taken refused ≡ ok taken)
        × (taken.identity ≡ from_bind_dn second)
  unfolding resolve_pending_bind settle_response
  reused_id state id first second accepted refused p q =
      let both = stage_claim (stage_claim state (some (id, first))) (some (id, second)) in
      let taken : BindState = record {
        identity = from_bind_dn second;
        pending = remove id both.pending;
      } in
      (
        taken,
        bind_ok _ p
            ∙ rw (staged_claim (stage_claim state (some (id, first))) id second, settle) refl,
        bind_ok _ q ∙ rw (get-remove id id both.pending, same_id id, settle) refl,
        refl,
      )
