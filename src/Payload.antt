-- ===== src/Payload.antt =====
-- The payloads that a hook can be dispatched with, as `&dyn PluginPayload`: a case for each concrete
-- type that crates/cpex-hosts-python/src/conversion.rs downcasts to, and one for any other.
use cpex.Json.{Value}
use cpex.Result.{Serde}
use cpex.Ppe.{IdentityPayload, DelegationPayload}

-- The types that serialize as they are, under the names that the source gives them.
pub data PayloadType : Type 0 where
  message tool_pre_invoke tool_post_invoke prompt_pre_fetch prompt_post_fetch : PayloadType
  resource_pre_fetch resource_post_fetch identity_resolve token_delegate : PayloadType

-- A typed payload is held as what it serializes to.
pub data Payload : Type 0 where
  identity : IdentityPayload → Payload
  delegation : DelegationPayload → Payload
  typed : PayloadType → Serde Value → Payload
  generic : Value → Payload
  foreign : Payload
