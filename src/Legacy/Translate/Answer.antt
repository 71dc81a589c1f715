-- ===== src/Legacy/Translate/Answer.antt =====
-- `apply_modified` of crates/cpex-hosts-python/src/legacy/cmf_shim.rs: a modified legacy payload, put back into the message.
pub mod Edited
use Prim.Native.String.{◌++◌, len}
use cpex.Prelude.{
  ℕ, zero, suc, Bool, true, false, not, ◌&&◌, ◌||◌, String, Option, none, some, List, [], ◌∷◌, map,
  ◌==◌, if◌then◌else◌, is_some,
}
use cpex.Json.{Value, null, string, array, object, Fields, Items, nil, cons, get, member, as_str}
use cpex.HostError.{HostError, protocol, decimal}
use cpex.Result.{Result, ok, err, ◌>>=◌, ◌>>◌, ok_or, Serde, map_err}
use cpex.Ppe.{Object, Headers}
use cpex.Cmf.{
  ToolCall, ToolResult, PromptRequest, Resource, ContentPart, text, tool_call, tool_result,
  resource, resource_ref, prompt_request, prompt_result, Parts, no_parts, part, Messages,
  no_messages, message,
}
use cpex.Legacy.Payloads.{Reader}
use cpex.Legacy.{Shim, legacy_hook}
use cpex.Legacy.Parts.{is_set, result_says_error}
use cpex.Legacy.Translate.{ShimmedPayload, shim_error, unless}

abbrev is_filled {ℓ} : {A : Type ℓ} → Option (List A) → Bool
is_filled (some (a ∷ as_given)) = true
is_filled _ = false

abbrev or_none {ℓ} : {A : Type ℓ} → Option (List A) → List A
or_none none = []
or_none (some xs) = xs

module _ (reader : Reader) (s : ShimmedPayload) where
  fault : String → HostError
  fault what = shim_error s.hook_name (legacy_hook s.shim) what

  abbrev parse {ℓ} : {A : Type ℓ} → Serde A → Result A
  parse read = map_err read (λ e. protocol (
      "worker returned a modified payload that does not match the legacy hook '"
      ++ (legacy_hook s.shim ++ ("' (dispatched as '" ++ (s.hook_name ++ ("'): " ++ e))))))

  resource_pre_uri : Value → Result String
  unfolding fault legacy_hook
  resource_pre_uri modified = do
    legacy ← parse (reader.resource_pre_of modified)
    unless (is_filled legacy.metadata)
        (fault "the plugin returned resource `metadata`, which a CMF resource part cannot carry")
    ok legacy.uri

  role_at : ℕ → Value → Result Value
  role_at i item = elim (member "role" item) [
    | none ↦ err (fault ("`result.messages[" ++ (decimal i ++ "].role` is not a CMF role")))
    | some r ↦
        ok_or (reader.role_of r)
          (fault ("`result.messages[" ++ (decimal i ++ "].role` is not a CMF role")))
  ]

  is_text_type : Option Value → Bool
  is_text_type (some (string t)) = t == "text"
  is_text_type _ = false

  text_of : Option Value → Option String
  text_of (some (object c)) =
      if is_text_type (get "type" c)
      then (elim (get "text" c) [ none ↦ none | some v ↦ as_str v ])
      else none
  text_of _ = none

  text_at : ℕ → Value → Result String
  text_at i item = ok_or (text_of (member "content" item)) (
      fault (
        "`result.messages["
        ++ (decimal i ++ "].content` must be text content ({\"type\": \"text\", \"text\": ...})")))

  meta_of : Messages → Value
  meta_of no_messages = reader.new_meta
  meta_of (message role meta ps ms) = meta

  rest_of : Messages → Messages
  rest_of no_messages = no_messages
  rest_of (message role meta ps ms) = ms

  rebuild_messages : ℕ → Items → Messages → Result Messages
  unfolding role_at text_at text_of meta_of rest_of is_text_type
  rebuild_messages i nil original = ok no_messages
  rebuild_messages i (cons item items) original = do
    role ← role_at i item
    content ← text_at i item
    ms ← rebuild_messages (suc i) items (rest_of original)
    ok (message role (meta_of original) (part (text content) no_parts) ms)

  is_not_null : Option Value → Bool
  is_not_null none = false
  is_not_null (some null) = false
  is_not_null (some v) = true

  from_messages : Option Value → Messages → Result Messages
  from_messages (some (array items)) original = rebuild_messages 0 items original
  from_messages _ original = err (fault "`result.messages` must be a list")

  messages_from_legacy : Value → Messages → Result Messages
  unfolding from_messages is_not_null
  messages_from_legacy (object result) original = do
    unless (is_not_null (get "description" result)) (
        fault
          "the plugin returned a prompt result `description`, which a CMF prompt result cannot carry")
    from_messages (get "messages" result) original
  messages_from_legacy _ original = err (fault "`result` must be an object with a `messages` list")

  is_other : Option Value → String → Bool
  is_other none s = false
  is_other (some (string t)) s = not (t == s)
  is_other (some v) s = true

  text_or_null : String → Option Value → Result (Option String)
  text_or_null what none = ok none
  text_or_null what (some null) = ok none
  text_or_null what (some (string t)) = ok (some t)
  text_or_null what (some v) = err (fault what)

  new_mime : Option Value → Option String → Result (Option String)
  new_mime none old = ok old
  new_mime given old = text_or_null "`content.mime_type` must be a string or null" given

  from_fields : Fields → String → Resource → Result Resource
  unfolding text_or_null new_mime is_not_null is_other
  from_fields fields original_uri r = do
    unless (is_not_null (get "blob" fields)) (
        fault
          "the plugin returned resource `content.blob`; binary resource content is not carried by the shim")
    unless (is_other (get "id" fields) r.resource_request_id)
        (fault "the plugin changed `content.id`, which is not mapped back")
    unless (is_other (get "uri" fields) r.uri && is_other (get "uri" fields) original_uri) (
        fault
          "the plugin changed `content.uri` to a value other than `uri`, and only `uri` is mapped back")
    content ← text_or_null "`content.text` must be a string or null" (get "text" fields)
    mime ← new_mime (get "mime_type" fields) r.mime_type
    ok (record r { content = content; mime_type = mime })

  from_content : Value → String → Resource → Result Resource
  unfolding from_fields
  from_content null original_uri r = ok (record r { content = none })
  from_content (string t) original_uri r = ok (record r { content = some t })
  from_content (object fields) original_uri r = from_fields fields original_uri r
  from_content _ original_uri r = err (fault "`content` must be an object, a string, or null")

  same_text : Option String → Option String → Bool
  same_text none none = true
  same_text (some a) (some b) = a == b
  same_text _ _ = false

  size_of : Option String → Option ℕ
  size_of none = none
  size_of (some t) = some (len t)

  -- A size that was measured is measured again on another content.
  measured : Option String → Resource → Resource
  unfolding same_text size_of
  measured before r =
      if not (same_text r.content before) && is_some r.size_bytes
      then record r { size_bytes = size_of r.content }
      else r

  apply_part : Shim → ContentPart → Value → Result ContentPart
  apply_part Shim.tool_pre_invoke (tool_call c) modified = do
    legacy ← parse (reader.tool_pre_of modified)
    unless (is_filled legacy.headers)
        (fault "the plugin returned `headers`, which a CMF tool call cannot carry")
    ok (tool_call (record c { name = legacy.name; arguments = or_none legacy.args }))
  apply_part Shim.tool_post_invoke (tool_result r) modified = do
    legacy ← parse (reader.tool_post_of modified)
    unless (r.is_error && not (result_says_error legacy.result)) (
        fault
          "the plugin cleared `isError` on an error tool result, and the CMF `is_error` flag is not mapped back")
    ok (
        tool_result (record r {
          tool_name = legacy.name;
          content = legacy.result;
          is_error = r.is_error || result_says_error legacy.result;
        }))
  apply_part Shim.prompt_pre_fetch (prompt_request r) modified = do
    legacy ← parse (reader.prompt_pre_of modified)
    ok (
        prompt_request (record r {
          name = legacy.prompt_id;
          arguments = map (λ a. (a.0, string a.1)) (or_none legacy.args);
        }))
  apply_part Shim.prompt_post_fetch (prompt_result id name ms content error is_error) modified = do
    legacy ← parse (reader.prompt_post_of modified)
    messages ← messages_from_legacy legacy.result ms
    ok (prompt_result id legacy.prompt_id messages content error is_error)
  apply_part Shim.resource_pre_fetch (resource r) modified = do
    uri ← resource_pre_uri modified
    unless
        (not (uri == r.uri)
          && (reader.is_embedded r || (is_some r.mime_type || is_some r.size_bytes)))
        (fault
          "the plugin rewrote the URI of a resource that carries content, mime_type or size_bytes from the original URI")
    ok (resource (record r { uri = uri }))
  apply_part Shim.resource_pre_fetch (resource_ref r) modified = do
    uri ← resource_pre_uri modified
    ok (resource_ref (record r { uri = uri }))
  apply_part Shim.resource_post_fetch (resource r) modified = do
    legacy ← parse (reader.resource_post_of modified)
    made ← from_content legacy.content r.uri (record r { uri = legacy.uri })
    ok (resource (measured r.content made))
  apply_part shim p modified = err (fault "the original content part changed kind")

  apply_at : ℕ → Value → List ContentPart → Result (List ContentPart)
  apply_at i modified [] = err (fault "the original content part is gone")
  apply_at zero modified (p ∷ ps) = do q ← apply_part s.shim p modified; ok (q ∷ ps)
  apply_at (suc i) modified (p ∷ ps) = do qs ← apply_at i modified ps; ok (p ∷ qs)

  unfoldable pub apply_modified : Value → Result (List ContentPart)
  unfolding apply_at apply_part messages_from_legacy rebuild_messages from_content measured
      resource_pre_uri fault
  apply_modified modified = apply_at s.index modified s.original
