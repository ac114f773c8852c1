-- ===== src/Core/Connector.antt =====
-- src/core/connector.rs: what a protocol owes to the proxy, as an interface. A frame is the list of its bytes, and
-- the errors are of any type.
use protect.Core.Action.{Action}
use protect.Prelude.{ℕ, Bool, Option, Result, Text}

pub record Connector (E : Type 0) : Type 0 where
  pub decode : Text → Result (Option Action) E
  pub build_rejection : Text → Text → Result Text E
  pub upgrade_request : Text → Result (Option Text) E
  pub bind_request : Text → Result (Option (ℕ × Text)) E
  pub bind_response : Text → Result (Option (ℕ × Bool)) E
