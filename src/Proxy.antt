-- ===== src/Proxy.antt =====
-- src/proxy.rs: what one connection does with the frames of its two sides.
pub mod Pending
pub mod Verdicts
pub mod Session
pub mod Identities
pub mod Decisions
pub mod Relays
pub mod Reuse
pub mod Passage
pub mod Traffic
pub mod Budget
use protect.Core.Action.{Action}
use protect.Core.Connector.{Connector}
use protect.Core.Identity.{Identity, from_bind_dn}
use protect.Policy.{Decision, allow, block, PolicyContext, Policy, evaluate_all}
use protect.Prelude.{
  ℕ, Bool, true, false, not, ◌&&◌, Option, none, some, is_some, List, [], ◌∷◌, Result, ok, err,
  ◌>>=◌, Text, leb, length, get, insert, remove, nat_equality, if◌then◌else◌,
}

-- What both relays of a connection share: the identity, and the DNs that are claimed by binds without a response
-- yet, by message ID.
pub record BindState : Type 0 where
  pub identity : Identity
  pub pending : List (ℕ × Text)

abbrev pub max_pending_binds : ℕ
max_pending_binds = 1024

abbrev pub smaller : ℕ → Option ℕ → Option ℕ
smaller k none = some k
smaller k (some j) = if leb k j then some k else some j

-- `keys().min()`
unfoldable pub min_key : List (ℕ × Text) → Option ℕ
min_key [] = none
min_key ((k, dn) ∷ pending) = smaller k (min_key pending)

abbrev pub evict : Option ℕ → List (ℕ × Text) → List (ℕ × Text)
evict none pending = pending
evict (some oldest) pending = remove oldest pending

unfoldable pub make_room : List (ℕ × Text) → ℕ → List (ℕ × Text)
make_room pending message_id =
    if leb max_pending_binds (length pending) && not (is_some (get message_id pending))
    then evict (min_key pending) pending
    else pending

unfoldable pub stage_pending_bind : List (ℕ × Text) → ℕ → Text → List (ℕ × Text)
stage_pending_bind pending message_id dn = insert message_id dn (make_room pending message_id)

-- A response to a claim, if that is staged.
unfoldable pub settle : BindState → ℕ → Bool → Option Text → BindState
settle state message_id success none = state
settle state message_id success (some dn) = record {
  identity = if success then from_bind_dn dn else state.identity;
  pending = remove message_id state.pending;
}

unfoldable pub settle_response : BindState → Option (ℕ × Bool) → BindState
unfolding settle
settle_response state none = state
settle_response state (some (message_id, success)) =
    settle state message_id success (get message_id state.pending)

abbrev pub stage_claim : BindState → Option (ℕ × Text) → BindState
stage_claim state none = state
stage_claim state (some (message_id, dn)) = record state {
  pending = stage_pending_bind state.pending message_id dn;
}

-- A write that a frame of the client leads to.
pub data Output : Type 0 where
  to_upstream to_client : Text → Output

abbrev pub context : BindState → PolicyContext
context state = record { identity = state.identity }

module _ {E : Type 0} (connector : Connector E) where
  unfoldable pub resolve_pending_bind : BindState → Text → Result BindState E
  unfolding settle_response
  resolve_pending_bind state frame = do
    response ← connector.bind_response frame
    ok (settle_response state response)

  -- The frame itself if it is allowed, and else a rejection.
  unfoldable pub respond : Text → Decision → Result Output E
  respond frame allow = ok (to_upstream frame)
  respond frame (block reason) = do
    rejection ← connector.build_rejection frame reason
    ok (to_client rejection)

module _ {E P : Type 0} ⦃policy : Policy P⦄ (connector : Connector E) where
  -- `policies` is the chain as its policies are at this instant; what becomes of them stays, even if
  -- the connection ends by an error.
  unfoldable pub police :
      BindState
      → List P
      → (ℕ → ℕ)
      → Text
      → Result (Option Action) E
      → Result Output E × (BindState × List P)
  police state policies clock frame (err e) = (err e, (state, policies))
  police state policies clock frame (ok none) = (ok (to_upstream frame), (state, policies))
  police state policies clock frame (ok (some action)) = (
    respond connector frame (evaluate_all policies action (context state) clock).0,
    (state, (evaluate_all policies action (context state) clock).1),
  )

  unfoldable pub after_claim :
      BindState
      → List P
      → (ℕ → ℕ)
      → Text
      → Result (Option (ℕ × Text)) E
      → Result Output E × (BindState × List P)
  after_claim state policies clock frame (err e) = (err e, (state, policies))
  after_claim state policies clock frame (ok claim) =
      police (stage_claim state claim) policies clock frame (connector.decode frame)

  -- Nothing in it waits before the write, so that it is one step of the connection's task.
  unfoldable pub handle_client_frame :
      BindState → List P → (ℕ → ℕ) → Text → Result Output E × (BindState × List P)
  handle_client_frame state policies clock frame =
      after_claim state policies clock frame (connector.bind_request frame)
