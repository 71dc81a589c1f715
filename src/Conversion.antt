-- ===== src/Conversion.antt =====
-- crates/cpex-hosts-python/src/conversion.rs, behind its hook table: a payload becomes the JSON of a
-- task, and a response of the worker becomes the result that the engine's executor consumes.
pub mod Decision
pub mod Samples
mod Tests
use Prim.Native.String.{◌++◌}
use cpex.Prelude.{Bool, true, false, String, Option, none, some, List, []}
use cpex.Json.{
  Value, null, object, Fields, get, member, entries, as_str, as_bool, as_i64, as_object,
}
use cpex.HostError.{HostError, protocol}
use cpex.Result.{Result, ok, err, ◌>>=◌, Serde, parsed, refused, map_err}
use cpex.Ppe.{Object, TokenSource, Extensions, OwnedExtensions, PluginViolation}
use cpex.Payload.{Payload, PayloadType, identity, delegation, typed, generic, foreign}
use cpex.Hooks.{PayloadKind, payload_kind_for_hook}
use cpex.CredentialPayloads.Identity.{identity_to_worker}
use cpex.CredentialPayloads.Delegation.{delegation_to_worker}
use cpex.Extensions.{Core, modified_extensions_field, owned_from_returned_slot}

type_name : PayloadType → String
type_name PayloadType.message = "MessagePayload"
type_name PayloadType.tool_pre_invoke = "ToolPreInvokePayload"
type_name PayloadType.tool_post_invoke = "ToolPostInvokePayload"
type_name PayloadType.prompt_pre_fetch = "PromptPreFetchPayload"
type_name PayloadType.prompt_post_fetch = "PromptPostFetchPayload"
type_name PayloadType.resource_pre_fetch = "ResourcePreFetchPayload"
type_name PayloadType.resource_post_fetch = "ResourcePostFetchPayload"
type_name PayloadType.identity_resolve = "IdentityResolvePayload"
type_name PayloadType.token_delegate = "TokenDelegatePayload"

-- `source_json` is the serializer at `TokenSource`.
unfoldable pub serialize_payload : (TokenSource → Serde Value) → Payload → Result Value
unfolding type_name
serialize_payload source_json (identity p) = identity_to_worker source_json p
serialize_payload source_json (delegation p) = delegation_to_worker p
serialize_payload source_json (typed t json) =
    map_err json (λ e. protocol ("could not serialize a " ++ (type_name t ++ (" payload: " ++ e))))
serialize_payload source_json (generic v) = ok v
serialize_payload source_json foreign = err (
    protocol
      "payload type is not one this host can forward to a Python worker (expected a CMF message payload, a PPE identity or delegation payload, a legacy typed payload, or the generic payload)")

-- The deserializer at the type of a payload; what it reads is held as what it serializes to.
abbrev pub Parser : Type 0
Parser = PayloadType → Value → Serde (Serde Value)

mismatch : String → String → HostError
mismatch hook e =
    protocol
      ("worker returned a modified payload that does not match hook '" ++ (hook ++ ("': " ++ e)))

parse_typed : Parser → PayloadType → String → Value → Result Payload
unfolding mismatch
parse_typed parse t hook v = do json ← map_err (parse t v) (mismatch hook); ok (typed t json)

parse_kind : Parser → PayloadKind → String → Value → Result Payload
unfolding parse_typed
parse_kind parse PayloadKind.cmf_message hook v = parse_typed parse PayloadType.message hook v
parse_kind parse PayloadKind.tool_pre_invoke hook v =
    parse_typed parse PayloadType.tool_pre_invoke hook v
parse_kind parse PayloadKind.tool_post_invoke hook v =
    parse_typed parse PayloadType.tool_post_invoke hook v
parse_kind parse PayloadKind.prompt_pre_fetch hook v =
    parse_typed parse PayloadType.prompt_pre_fetch hook v
parse_kind parse PayloadKind.prompt_post_fetch hook v =
    parse_typed parse PayloadType.prompt_post_fetch hook v
parse_kind parse PayloadKind.resource_pre_fetch hook v =
    parse_typed parse PayloadType.resource_pre_fetch hook v
parse_kind parse PayloadKind.resource_post_fetch hook v =
    parse_typed parse PayloadType.resource_post_fetch hook v
parse_kind parse PayloadKind.identity_resolve hook v =
    parse_typed parse PayloadType.identity_resolve hook v
parse_kind parse PayloadKind.token_delegate hook v =
    parse_typed parse PayloadType.token_delegate hook v
parse_kind parse PayloadKind.generic hook v = ok (generic v)

unfoldable pub deserialize_payload : Parser → String → Value → Result Payload
unfolding parse_kind
deserialize_payload parse hook v = parse_kind parse (payload_kind_for_hook hook) hook v

abbrev string_at : String → Fields → Option String
string_at key fs = elim (get key fs) [ none ↦ none | some v ↦ as_str v ]

abbrev text_or_empty : Option String → String
text_or_empty none = ""
text_or_empty (some s) = s

abbrev details_of : Option Value → Object
details_of (some (object fs)) = entries fs
details_of _ = []

-- `mcp_error_code` decides if the key is there at all, whatever it holds.
abbrev error_code_of : Option Value → Option Value → Option Value
error_code_of (some v) other = some v
error_code_of none other = other

unfoldable pub parse_violation : Value → Result PluginViolation
parse_violation (object fs) = ok (record {
  code = text_or_empty (string_at "code" fs);
  reason = text_or_empty (string_at "reason" fs);
  description = string_at "description" fs;
  details = details_of (get "details" fs);
  proto_error_code = elim (error_code_of (get "mcp_error_code" fs) (get "proto_error_code" fs)) [
    | none ↦ none
    | some v ↦ as_i64 v
  ];
})
parse_violation _ = err (protocol "worker returned a violation that is not a JSON object")

pub record ErasedResultFields : Type 0 where
  pub continue_processing : Bool
  pub modified_payload : Option Payload
  pub modified_extensions : Option OwnedExtensions
  pub violation : Option PluginViolation

-- Unset and `null` are no value; any other is read.
abbrev pub when_set {ℓ} : {A : Type ℓ} → (Value → Result A) → Option Value → Result (Option A)
when_set read none = ok none
when_set read (some null) = ok none
when_set read (some v) = do a ← read v; ok (some a)

abbrev pub or_true : Option Value → Bool
or_true none = true
or_true (some v) = elim (as_bool v) [ none ↦ true | some b ↦ b ]

abbrev pub returned_extensions : Core → Extensions → Option Value → Result (Option OwnedExtensions)
returned_extensions core inbound none = ok none
returned_extensions core inbound (some null) = ok none
returned_extensions core inbound (some v) = owned_from_returned_slot core v inbound

unfoldable pub response_to_result :
    Core → Parser → String → Value → Extensions → Result ErasedResultFields
response_to_result core parse hook response inbound = do
  violation ← when_set parse_violation (member "violation" response)
  payload ← when_set (deserialize_payload parse hook) (member "modified_payload" response)
  extensions ← returned_extensions core inbound (member modified_extensions_field response)
  ok (record {
    continue_processing = or_true (member "continue_processing" response);
    modified_payload = payload;
    modified_extensions = extensions;
    violation = violation;
  })
