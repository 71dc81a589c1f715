-- ===== src/Legacy/Translate.antt =====
-- `to_legacy` of crates/cpex-hosts-python/src/legacy/cmf_shim.rs: a CMF message as the legacy payload of its one part.
pub mod Inspected
pub mod Answer
mod Tests
use Prim.Native.String.{◌++◌}
use cpex.Prelude.{
  ◌≡◌, refl, ℕ, suc, Bool, true, false, not, ◌&&◌, String, Option, none, some, List, [], ◌∷◌,
  filter, find, eqb, length, ◌==◌, if◌then◌else◌,
}
use cpex.Text.{is_empty, trim}
use cpex.Json.{
  Value, null, bool, string, array, object, Fields, end, field, Items, nil, cons, of_entries,
  member,
}
use cpex.HostError.{HostError, legacy_shim, decimal}
use cpex.Result.{Result, ok, err, ◌>>=◌, ◌>>◌}
use cpex.Ppe.{Object}
use cpex.Cmf.{
  ToolCall, ToolResult, PromptRequest, Resource, ContentPart, text, thinking, tool_call,
  tool_result, resource, resource_ref, prompt_request, prompt_result, image, video, audio, document,
  Parts, no_parts, part, Messages, no_messages, message,
}
use cpex.Legacy
use cpex.Legacy.Parts.{part_name, is_match, carries_content, part_kind, is_set, result_says_error}
use cpex.Legacy.{Shim, for_hook, legacy_hook, is_post}

unfoldable pub shim_error : String → String → String → HostError
shim_error hook_name legacy what =
    legacy_shim hook_name ("translating to the legacy '" ++ (legacy ++ ("' payload: " ++ what)))

-- An error if the test holds.
abbrev pub unless : Bool → HostError → Result (Unit {0})
unless true e = err e
unless false e = ok tt

pub unless-eq-ok {ℓ} :
    {A : Type ℓ} (b : Bool) (e : HostError) (rest : Result A) {a : A}
    → (unless b e >> rest) ≡ ok a
    → (b ≡ false) × (rest ≡ ok a)
unless-eq-ok true e rest h = cc
unless-eq-ok false e rest h = (refl, h)

abbrev pub enumerate : ℕ → List ContentPart → List (ℕ × ContentPart)
enumerate i [] = []
enumerate i (p ∷ ps) = (i, p) ∷ enumerate (suc i) ps

-- `dict[str, str]` of the arguments.
text_args : (error : String → HostError) → Object → Result Fields
text_args error [] = ok end
text_args error ((key, string s) ∷ args) = do
  rest ← text_args error args
  ok (field key (string s) rest)
text_args error ((key, _) ∷ args) = err (
    error (
      "prompt argument '"
      ++ (key ++ "' is not a string, and the legacy payload's `args` is dict[str, str]")))

prompt_messages : (error : String → HostError) → ℕ → Messages → Result Items
prompt_messages error i no_messages = ok nil
prompt_messages error i (message role meta (part (text s) no_parts) ms) = do
  rest ← prompt_messages error (suc i) ms
  ok (
      cons
        (object (
          field "role" role (
            field "content" (object (field "type" (string "text") (field "text" (string s) end)))
              end)))
        rest)
prompt_messages error i (message role meta other ms) = err (
    error (
      "prompt result message "
      ++ (decimal i
          ++ " is not a single text part, and the legacy prompt message holds one text content")))

or_null : Option String → Value
or_null none = null
or_null (some s) = string s

legacy_json : (error : String → HostError) → Shim → ContentPart → Result Value
unfolding text_args prompt_messages or_null decimal
legacy_json error Shim.tool_pre_invoke (tool_call c) = do
  unless (is_set c.namespace) (
      error
        "the tool call has a `namespace`, which the legacy payload cannot carry; a plugin that authorizes by bare `name` would approve it in any namespace")
  ok (object (field "name" (string c.name) (field "args" (object (of_entries c.arguments)) end)))
legacy_json error Shim.tool_post_invoke (tool_result r) = do
  unless (r.is_error && not (result_says_error r.content)) (
      error
        "the tool result has `is_error` set, and its `content` does not carry `\"isError\": true` for the legacy plugin to see")
  ok (object (field "name" (string r.tool_name) (field "result" r.content end)))
legacy_json error Shim.prompt_pre_fetch (prompt_request r) = do
  unless (is_set r.server_id) (
      error
        "the prompt request has a `server_id`, which the legacy payload cannot carry; a plugin that authorizes by bare `prompt_id` would approve it on any server")
  args ← text_args error r.arguments
  ok (object (field "prompt_id" (string r.name) (field "args" (object args) end)))
legacy_json error Shim.prompt_post_fetch (prompt_result id name ms content error_message is_error) =
    do
      unless (is_set content) (
          error
            "the prompt result has rendered `content`, which the legacy payload cannot carry, so a plugin could not inspect or redact it")
      unless (is_set error_message) (
          error
            "the prompt result has an `error_message`, which the legacy payload cannot carry, so a plugin could not inspect or redact it")
      unless is_error
          (error "the prompt result has `is_error` set, which the legacy payload cannot carry")
      messages ← prompt_messages error 0 ms
      ok (
          object (
            field "prompt_id" (string name) (
              field "result"
                (object (field "messages" (array messages) (field "description" null end))) end)))
legacy_json error Shim.resource_pre_fetch (resource r) = do
  unless (is_set r.version) (
      error
        "the resource has a `version`, which the legacy payload cannot carry; a plugin that authorizes by `uri` would approve any revision")
  ok (object (field "uri" (string r.uri) end))
legacy_json error Shim.resource_pre_fetch (resource_ref r) =
    ok (object (field "uri" (string r.uri) end))
legacy_json error Shim.resource_post_fetch (resource r) = do
  unless (is_set r.version) (
      error
        "the resource has a `version`, which the legacy payload cannot carry; a plugin that authorizes by `uri` would approve any revision")
  unless r.has_blob
      (error "the resource carries binary `blob` content, which the shim does not translate")
  ok (
      object (
        field "uri" (string r.uri) (
          field "content"
            (object (
              field "type" (string "resource") (
                field "id" (string r.resource_request_id) (
                  field "uri" (string r.uri) (
                    field "mime_type" (or_null r.mime_type)
                      (field "text" (or_null r.content) end))))))
            end)))
legacy_json error Shim.resource_post_fetch (resource_ref r) = err (
    error
      "the message holds a resource_ref with no content, and the legacy post-fetch payload carries the content")
legacy_json error _ p = err (error "unexpected content part")

abbrev pub candidates : Shim → List ContentPart → List (ℕ × ContentPart)
candidates shim content = filter (λ p. is_match shim p.1) (enumerate 0 content)

the_only : (error : String → HostError) → Shim → List (ℕ × ContentPart) → Result (ℕ × ContentPart)
the_only error shim [] = err (error ("the message has no " ++ (part_name shim ++ " content part")))
the_only error shim (only ∷ []) = ok only
the_only error shim (p ∷ q ∷ ps) = err (
    error (
      "the message has "
      ++ (decimal (length (p ∷ q ∷ ps))
          ++ (" " ++ (part_name shim ++ " content parts and the legacy payload holds one")))))

abbrev pub is_hidden : Shim → ℕ → ℕ × ContentPart → Bool
is_hidden shim only p = is_post shim && (not (eqb p.0 only) && carries_content p.1)

no_sibling : (error : String → HostError) → Shim → Option (ℕ × ContentPart) → Result (Unit {0})
no_sibling error shim none = ok tt
no_sibling error shim (some p) = err (
    error (
      "the message holds a "
      ++ (part_kind p.1
          ++ (" content part beside the "
              ++ (part_name shim
                  ++ " part, which the legacy payload cannot carry, so a plugin could not inspect or redact it")))))

pub record ShimmedPayload : Type 0 where
  pub shim : Shim
  pub hook_name : String
  pub original : List ContentPart
  pub index : ℕ
  pub json : Value

translate : Shim → String → List ContentPart → Result ShimmedPayload
translate shim hook_name content = do
  only ← the_only (shim_error hook_name (legacy_hook shim)) shim (candidates shim content)
  no_sibling (shim_error hook_name (legacy_hook shim)) shim
      (find (is_hidden shim only.0) (enumerate 0 content))
  json ← legacy_json (shim_error hook_name (legacy_hook shim)) shim only.1
  ok (record {
    shim = shim;
    hook_name = hook_name;
    original = content;
    index = only.0;
    json = json;
  })

translate_message : Shim → String → Option (List ContentPart) → Result ShimmedPayload
translate_message shim hook_name none =
    err (shim_error hook_name (legacy_hook shim) "the payload is not a CMF MessagePayload")
translate_message shim hook_name (some content) = translate shim hook_name content

translate_hook : Option Shim → String → Option (List ContentPart) → Result ShimmedPayload
translate_hook none hook_name payload = err (
    legacy_shim hook_name
      "it has no legacy hook equivalent, so only a worker that claims the `cmf_hooks` feature can run it. Upgrade the cpex package in the plugin's venv, or remove the hook from the plugin's `hooks:` list.")
translate_hook (some shim) hook_name payload = translate_message shim hook_name payload

-- `payload` is the content of the message, if the payload is one. What the structs of a legacy payload serialize to
-- is an object with their fields, without those that are absent.
unfoldable pub to_legacy :
    (hook_name : String) → (payload : Option (List ContentPart)) → Result ShimmedPayload
unfolding translate_hook translate_message translate legacy_json the_only no_sibling
to_legacy hook_name payload = translate_hook (for_hook hook_name) hook_name payload
