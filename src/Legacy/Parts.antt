-- ===== src/Legacy/Parts.antt =====
-- What crates/cpex-hosts-python/src/legacy/cmf_shim.rs asks of one content part.
use cpex.Prelude.{Bool, true, false, not, String, Option, none, some}
use cpex.Text.{is_empty, trim}
use cpex.Json.{Value, bool, member}
use cpex.Cmf.{
  ContentPart, text, thinking, tool_call, tool_result, resource, resource_ref, prompt_request,
  prompt_result, image, video, audio, document,
}
use cpex.Legacy.{Shim}

unfoldable pub part_name : Shim → String
part_name Shim.tool_pre_invoke = "tool_call"
part_name Shim.tool_post_invoke = "tool_result"
part_name Shim.prompt_pre_fetch = "prompt_request"
part_name Shim.prompt_post_fetch = "prompt_result"
part_name Shim.resource_pre_fetch = "resource or resource_ref"
part_name Shim.resource_post_fetch = "resource"

is_resource : ContentPart → Bool
is_resource (resource r) = true
is_resource (resource_ref r) = true
is_resource _ = false

-- `Shim::matches`.
unfoldable pub is_match : Shim → ContentPart → Bool
unfolding is_resource
is_match Shim.tool_pre_invoke (tool_call c) = true
is_match Shim.tool_post_invoke (tool_result r) = true
is_match Shim.prompt_pre_fetch (prompt_request r) = true
is_match Shim.prompt_post_fetch (prompt_result id name ms content error is_error) = true
is_match Shim.resource_pre_fetch p = is_resource p
is_match Shim.resource_post_fetch p = is_resource p
is_match _ p = false

unfoldable pub carries_content : ContentPart → Bool
unfolding trim is_empty
carries_content (text s) = not (is_empty (trim s))
carries_content (thinking s) = not (is_empty (trim s))
carries_content _ = true

unfoldable pub part_kind : ContentPart → String
part_kind (text s) = "text"
part_kind (thinking s) = "thinking"
part_kind (tool_call c) = "tool_call"
part_kind (tool_result r) = "tool_result"
part_kind (resource r) = "resource"
part_kind (resource_ref r) = "resource_ref"
part_kind (prompt_request r) = "prompt_request"
part_kind (prompt_result id name ms content error is_error) = "prompt_result"
part_kind image = "image"
part_kind video = "video"
part_kind audio = "audio"
part_kind document = "document"

unfoldable pub is_set : Option String → Bool
is_set none = false
is_set (some s) = not (is_empty s)

abbrev is_true : Option Value → Bool
is_true (some (bool true)) = true
is_true _ = false

unfoldable pub result_says_error : Value → Bool
result_says_error result = is_true (member "isError" result)
