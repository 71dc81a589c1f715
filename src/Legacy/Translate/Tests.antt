-- ===== src/Legacy/Translate/Tests.antt =====
-- A tool call as a legacy payload, and an answer to it.
use cpex.Prelude.{refl, false, none, String, List, [], ◌∷◌}
use cpex.Json.{null, string, object, end, field}
use cpex.Result.{parsed, refused}
use cpex.Cmf.{ContentPart, text, tool_call}
use cpex.Legacy.{Shim, for_hook, is_post}
use cpex.Legacy.Parts.{is_match, is_set}
use cpex.Legacy.Translate.{ShimmedPayload, to_legacy}
use cpex.Legacy.Translate.Inspected.{IsInspected, to_legacy-IsInspected}
use cpex.Legacy.Payloads.{Reader}

abbrev call : String → ContentPart
call name =
    tool_call (record { name = name; arguments = []; namespace = none; tool_call_id = string "1" })

abbrev content : List ContentPart
content = text "call it" ∷ call "fetch" ∷ []

abbrev shimmed : ShimmedPayload
shimmed = record {
  shim = Shim.tool_pre_invoke;
  hook_name = "cmf.tool_pre_invoke";
  original = content;
  index = 1;
  json = object (field "name" (string "fetch") (field "args" (object end) end));
}

to_legacy-IsInspected_example : IsInspected "cmf.tool_pre_invoke" content shimmed
unfolding to_legacy for_hook is_match is_post is_set
to_legacy-IsInspected_example = to_legacy-IsInspected "cmf.tool_pre_invoke" content shimmed refl

-- A deserializer that reads one answer.
abbrev reader : Reader
reader = record {
  tool_pre_of = λ v. parsed (record { name = "fetch_safe"; args = none; headers = none });
  tool_post_of = λ v. refused "unread";
  prompt_pre_of = λ v. refused "unread";
  prompt_post_of = λ v. refused "unread";
  resource_pre_of = λ v. refused "unread";
  resource_post_of = λ v. refused "unread";
  role_of = λ v. none;
  is_embedded = λ r. false;
  new_meta = null;
}

abbrev edited : List ContentPart
edited = text "call it" ∷ call "fetch_safe" ∷ []
