-- ===== src/Cmf.antt =====
-- The CMF message of the crate praxis-policy-core, with the parts and fields that crates/cpex-hosts-python reads. The
-- crate is not part of the repository; a role is held as what it serializes to, and `meta` holds the
-- schema version and the channel of a message. So is a field that the crate here does not read: the ids that
-- correlate parts, the names and descriptions, annotations, and the range of a reference.
use cpex.Prelude.{ℕ, Bool, String, Option, List, [], ◌∷◌}
use cpex.Json.{Value}
use cpex.Ppe.{Object}

pub record ToolCall : Type 0 where
  pub name : String
  pub arguments : Object
  pub namespace : Option String
  pub tool_call_id : Value

pub record ToolResult : Type 0 where
  pub tool_name : String
  pub content : Value
  pub is_error : Bool
  pub tool_call_id : Value

pub record PromptRequest : Type 0 where
  pub name : String
  pub arguments : Object
  pub server_id : Option String
  pub prompt_request_id : Value

pub record Resource : Type 0 where
  pub uri : String
  pub resource_request_id : String
  pub content : Option String
  pub mime_type : Option String
  pub version : Option String
  pub has_blob : Bool
  pub size_bytes : Option ℕ
  pub name : Value
  pub description : Value
  pub resource_type : Value
  pub annotations : Value

pub record ResourceRef : Type 0 where
  pub uri : String
  pub resource_request_id : Value
  pub name : Value
  pub resource_type : Value
  pub range_start : Value
  pub range_end : Value
  pub selector : Value

-- A prompt result holds messages, which hold parts.
mutual
  pub data ContentPart : Type 0 where
    text : String → ContentPart
    thinking : String → ContentPart
    tool_call : ToolCall → ContentPart
    tool_result : ToolResult → ContentPart
    resource : Resource → ContentPart
    resource_ref : ResourceRef → ContentPart
    prompt_request : PromptRequest → ContentPart
    prompt_result :
        (prompt_request_id : Value) (prompt_name : String)
        → Messages
        → (content error_message : Option String) → (is_error : Bool) → ContentPart
    image : ContentPart
    video : ContentPart
    audio : ContentPart
    document : ContentPart

  pub data Parts : Type 0 where
    no_parts : Parts
    part : ContentPart → Parts → Parts

  pub data Messages : Type 0 where
    no_messages : Messages
    message : (role meta : Value) → Parts → Messages → Messages

abbrev pub parts : Parts → List ContentPart
parts no_parts = []
parts (part p ps) = p ∷ parts ps
