-- ===== src/Ppe.antt =====
-- The types of the crate praxis-policy-core that the host reads and builds, with the fields that
-- it uses. The crate is not part of the repository. What the host only hands on is held as the
-- JSON that it serializes to, and the crate's functions are arguments of the definitions.
use cpex.Prelude.{ℕ, Bool, String, Option, List}
use cpex.Json.{ℤ, Value}
use cpex.Result.{Serde}

-- The names that PPE dispatches.
abbrev pub hook_identity_resolve : String
hook_identity_resolve = "identity.resolve"

abbrev pub hook_token_delegate : String
hook_token_delegate = "token.delegate"

abbrev pub hook_cmf_tool_pre_invoke : String
hook_cmf_tool_pre_invoke = "cmf.tool_pre_invoke"

abbrev pub hook_cmf_tool_post_invoke : String
hook_cmf_tool_post_invoke = "cmf.tool_post_invoke"

abbrev pub hook_cmf_llm_input : String
hook_cmf_llm_input = "cmf.llm_input"

abbrev pub hook_cmf_llm_output : String
hook_cmf_llm_output = "cmf.llm_output"

abbrev pub hook_cmf_prompt_pre_invoke : String
hook_cmf_prompt_pre_invoke = "cmf.prompt_pre_invoke"

abbrev pub hook_cmf_prompt_post_invoke : String
hook_cmf_prompt_post_invoke = "cmf.prompt_post_invoke"

abbrev pub hook_cmf_resource_pre_fetch : String
hook_cmf_resource_pre_fetch = "cmf.resource_pre_fetch"

abbrev pub hook_cmf_resource_post_fetch : String
hook_cmf_resource_post_fetch = "cmf.resource_post_fetch"

abbrev pub Headers : Type 0
Headers = List (String × String)

abbrev pub Object : Type 0
Object = List (String × Value)

-- Enumerations marked `#[non_exhaustive]` have a case for what may be added upstream.
pub data TokenKind : Type 0 where
  jwt opaque spiffe_jwt ucan txn_token : TokenKind
  unlisted : String → TokenKind

pub data TokenRole : Type 0 where
  user client caller_workload : TokenRole
  unlisted : String → TokenRole

pub data DelegationMode : Type 0 where
  on_behalf_of_user as_this_workload : DelegationMode
  unlisted : String → DelegationMode

pub data TokenSource : Type 0 where
  spiffe_jwt_svid : TokenSource
  unlisted : String → TokenSource

pub record RawInboundToken : Type 0 where
  pub token : String
  pub source_header : String
  pub kind : TokenKind

pub record DelegationKey : Type 0 where
  pub mode : DelegationMode
  pub subject_id : Option String
  pub audience : String
  pub scopes : List String

pub record RawDelegatedToken : Type 0 where
  pub token : String
  pub outbound_header : String
  pub audience : String
  pub scopes : List String
  pub expires_at : ℤ

-- The maps in the order in which they are iterated.
pub record RawCredentials : Type 0 where
  pub inbound_tokens : List (TokenRole × RawInboundToken)
  pub delegated_tokens : List (DelegationKey × RawDelegatedToken)

pub record HttpExtension : Type 0 where
  pub request_headers : Headers
  pub secret_headers : Headers
  pub response_headers : Headers
  pub status : Option ℕ
  pub method : Option String
  pub path : Option String
  pub host : Option String
  pub scheme : Option String

-- `principal` stands for the fields other than the labels: subject, authentication method, client
-- and workload identities.
pub record SecurityExtension : Type 0 where
  pub labels : List String
  pub principal : Value

pub record DelegationExtension : Type 0 where
  pub chain : List Value
  pub depth : ℕ
  pub origin_subject_id : Option String
  pub actor_subject_id : Option String
  pub delegated : Bool

-- A shared slot that the host never looks into: the address of its `Arc`, and what it serializes to.
pub record Slot : Type 0 where
  pub address : ℕ
  pub json : Serde Value

pub record Immutable : Type 0 where
  pub request : Option Slot
  pub agent : Option Slot
  pub mcp : Option Slot
  pub completion : Option Slot
  pub provenance : Option Slot
  pub llm : Option Slot
  pub framework : Option Slot
  pub meta : Option Slot

-- The capability-filtered view; a write token is there or not.
pub record Extensions : Type 0 where
  pub immutable : Immutable
  pub open immutable use *
  pub http : Option HttpExtension
  pub security : Option SecurityExtension
  pub delegation : Option DelegationExtension
  pub custom : Option Object
  pub raw_credentials : Option RawCredentials
  pub http_write_token : Bool
  pub labels_write_token : Bool
  pub delegation_write_token : Bool

pub record OwnedExtensions : Type 0 where
  pub immutable : Immutable
  pub open immutable use *
  pub http : Option HttpExtension
  pub security : Option SecurityExtension
  pub delegation : Option DelegationExtension
  pub custom : Option Object

pub record PluginViolation : Type 0 where
  pub code : String
  pub reason : String
  pub description : Option String
  pub details : Object
  pub proto_error_code : Option ℤ

-- `subject` and the claims are held as JSON.
pub record IdentityPayload : Type 0 where
  pub raw_token : String
  pub source : TokenSource
  pub source_header : Option String
  pub headers : Headers
  pub client_host : Option String
  pub client_port : Option ℕ
  pub subject : Option Value
  pub delegation : Option DelegationExtension
  pub raw_claims : Object

pub data DelegationSubject : Type 0 where
  user : DelegationSubject
  unlisted : String → DelegationSubject

pub record DelegationPayload : Type 0 where
  pub bearer_token : String
  pub subject : DelegationSubject
  pub actor_role : Option TokenRole
  pub actor_token : String
  pub target_name : String
  pub target_type : Serde Value
  pub target_audience : Option String
  pub required_permissions : List String
  pub trust_domain : Option String
  pub auth_enforced_by : Serde Value
  pub route_attenuation : Option (Serde Value)
  pub delegated_token : Option RawDelegatedToken
  pub delegation_mode : Option DelegationMode
  pub minted_at : Option ℤ
  pub delegation_update : Option DelegationExtension
