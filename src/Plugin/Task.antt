-- ===== src/Plugin/Task.antt =====
-- The task of one invocation in crates/cpex-hosts-python/src/plugin.rs: `build_task`, and the part of `invoke` that
-- makes the task ready to be sent.
pub mod Blind
use Prim.Native.String.{◌++◌}
use cpex.Prelude.{Bool, true, false, String, Option, none, some, List, [], ◌∷◌, map, lookup}
use cpex.Json.{Value, null, string, array, object, Fields, end, field, of_items, of_entries, as_str}
use cpex.HostError.{protocol}
use cpex.Result.{Result, ok, err, ◌>>=◌, Serde, parsed, refused, map_err}
use cpex.Ppe.{Object, TokenSource, Extensions}
use cpex.Payload.{Payload}
use cpex.Conversion.{serialize_payload}
use cpex.CredentialPayloads.Delegation.{texts_json}
use cpex.Credentials.Attach.{attach_credential_for_payload}
use cpex.Extensions.{Core, attach_extensions}
use cpex.Plugin.{Plugin, PluginConfig, worker_capabilities, worker_hook_for}

-- The states as maps, in the order in which they are iterated.
pub record PluginContext : Type 0 where
  pub local_state : Object
  pub global_state : Object

abbrev pub task_load_and_run_hook : String
task_load_and_run_hook = "load_and_run_hook"

abbrev pub global_request_id_key : String
global_request_id_key = "request_id"

abbrev pub or_null : Option Value → Value
or_null none = null
or_null (some v) = v

unfoldable pub config_json : Plugin → (legacy_cmf : Bool) → Value
config_json p legacy_cmf = object (
    field "name" (string p.config.name) (
      field "kind" (string p.config.kind) (
        field "hooks" (texts_json (map (λ hook. worker_hook_for hook legacy_cmf) p.config.hooks)) (
          field "capabilities" (texts_json (worker_capabilities p))
            (field "config" (or_null p.config.config) end)))))

abbrev text_of : Option Value → Option String
text_of none = none
text_of (some v) = as_str v

-- `fresh` is a new UUID.
unfoldable pub request_id : (fresh : String) → PluginContext → String
request_id fresh ctx = elim (text_of (lookup global_request_id_key ctx.global_state)) [
  | none ↦ fresh
  | some id ↦ id
]

unfoldable pub context_json : (fresh : String) → PluginContext → Value
context_json fresh ctx = object (
    field "state" (object (of_entries ctx.local_state)) (
      field "global_context"
        (object (
          field "request_id" (string (request_id fresh ctx))
            (field "state" (object (of_entries ctx.global_state)) end)))
        (field "metadata" (object end) end)))

-- `to_string` is the serializer at a JSON value.
unfoldable pub build_task :
    (to_string : Value → Serde String) (fresh : String)
    → Plugin
    → (hook_name : String) → (legacy_cmf : Bool) → (payload : Value) → PluginContext
    → Result Value
build_task to_string fresh p hook_name legacy_cmf payload ctx = do
  config_string ←
      map_err (to_string (config_json p legacy_cmf))
        (λ e. protocol ("could not serialize the plugin config for the worker: " ++ e))
  ok (
      object (
        field "task_type" (string task_load_and_run_hook) (
          field "plugin_dirs" (texts_json p.plugin_dirs) (
            field "class_name" (string p.class_name) (
              field "config" (string config_string) (
                field "hook_type" (string (worker_hook_for hook_name legacy_cmf)) (
                  field "plugin_name" (string p.config.name)
                    (field "payload" payload (field "context" (context_json fresh ctx) end)))))))))

-- The JSON of the legacy payload, where the message was translated to one.
payload_json : (TokenSource → Serde Value) → (shim : Option Value) → Payload → Result Value
payload_json source_json none payload = serialize_payload source_json payload
payload_json source_json (some json) payload = ok json

-- What `invoke` does between the choice of a payload and `send_task`.
unfoldable pub prepare_task :
    (TokenSource → Serde Value)
    → Core
    → (to_string : Value → Serde String) (fresh : String) → Plugin
    → (hook_name : String) → (legacy_cmf : Bool) → (shim : Option Value) → Payload
    → Extensions
    → PluginContext
    → Result Value
unfolding payload_json
prepare_task source_json core to_string fresh p hook_name legacy_cmf shim payload extensions ctx =
    do
      json ← payload_json source_json shim payload
      task ← build_task to_string fresh p hook_name legacy_cmf json ctx
      with_credential ←
          attach_credential_for_payload task hook_name payload extensions p.config.capabilities
      attach_extensions core with_credential extensions
