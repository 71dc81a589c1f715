-- ===== src/Legacy/Payloads.antt =====
-- The payloads of crates/cpex-hosts-python/src/legacy/payloads.rs that the shim reads.
use cpex.Prelude.{Bool, String, Option}
use cpex.Json.{Value}
use cpex.Result.{Serde}
use cpex.Ppe.{Object, Headers}
use cpex.Cmf.{Resource}

pub record ToolPreInvoke : Type 0 where
  pub name : String
  pub args : Option Object
  pub headers : Option Headers

pub record ToolPostInvoke : Type 0 where
  pub name : String
  pub result : Value

pub record PromptPreFetch : Type 0 where
  pub prompt_id : String
  pub args : Option Headers

pub record PromptPostFetch : Type 0 where
  pub prompt_id : String
  pub result : Value

pub record ResourcePreFetch : Type 0 where
  pub uri : String
  pub metadata : Option Object

pub record ResourcePostFetch : Type 0 where
  pub uri : String
  pub content : Value

-- The deserializers at the legacy payloads and at a role, and what praxis-policy-core answers: whether a resource has
-- its content with it, and the schema version and channel of a new message.
pub record Reader : Type 0 where
  pub tool_pre_of : Value → Serde ToolPreInvoke
  pub tool_post_of : Value → Serde ToolPostInvoke
  pub prompt_pre_of : Value → Serde PromptPreFetch
  pub prompt_post_of : Value → Serde PromptPostFetch
  pub resource_pre_of : Value → Serde ResourcePreFetch
  pub resource_post_of : Value → Serde ResourcePostFetch
  pub role_of : Value → Option Value
  pub is_embedded : Resource → Bool
  pub new_meta : Value
