-- ===== src/Conversion/Tests.antt =====
-- Responses on concrete JSON.
use cpex.Prelude.{◌≡◌, refl, false, none, some, []}
use cpex.Json.{Value, bool, string, object, end, field, get}
use cpex.Result.{ok, parsed}
use cpex.Payload.{PayloadType, typed}
use cpex.Hooks.{PayloadKind, payload_kind_for_hook}
use cpex.Conversion.{ErasedResultFields, response_to_result, parse_violation, deserialize_payload}
use cpex.Conversion.Samples.{core, reparse, view}
use cpex.Conversion.Decision.{Decides, response_to_result-Decides, deserialize_payload-kind}

abbrev denial : Value
denial = object (
    field "continue_processing" (bool false)
      (field "violation" (object (field "reason" (string "no") end)) end))

abbrev denied : ErasedResultFields
denied = record {
  continue_processing = false;
  modified_payload = none;
  modified_extensions = none;
  violation = some (record {
    code = "";
    reason = "no";
    description = none;
    details = [];
    proto_error_code = none;
  });
}

denied_ok : response_to_result core reparse "tool_pre_invoke" denial view ≡ ok denied
unfolding response_to_result parse_violation get
denied_ok = refl

response_to_result-Decides_example : Decides denial denied
response_to_result-Decides_example =
    response_to_result-Decides core reparse "tool_pre_invoke" denial view denied denied_ok

reparsed :
    deserialize_payload reparse "tool_pre_invoke" (string "x")
    ≡ ok (typed PayloadType.tool_pre_invoke (parsed (string "x")))
unfolding deserialize_payload payload_kind_for_hook
reparsed = refl

deserialize_payload-kind_example :
    PayloadKind.tool_pre_invoke ≡ payload_kind_for_hook "tool_pre_invoke"
deserialize_payload-kind_example =
    deserialize_payload-kind reparse "tool_pre_invoke" (string "x")
      (typed PayloadType.tool_pre_invoke (parsed (string "x"))) reparsed
