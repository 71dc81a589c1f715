-- ===== src/Legacy/Translate/Answer/Edited.antt =====
-- What an answer to a legacy payload can change in the message, in crates/cpex-hosts-python/src/legacy/cmf_shim.rs.
use cpex.Prelude.{◌≡◌, ℕ, true, false, not, ◌&&◌, ◌||◌, List, ◌∷◌, ◌++◌, is_some, ◌==◌, length}
use cpex.Json.{Value}
use cpex.Cmf.{
  Resource, ContentPart, tool_call, tool_result, resource, resource_ref, prompt_request,
  prompt_result, Messages, no_messages, message,
}
use cpex.Legacy.{Shim}
use cpex.Legacy.Payloads.{Reader}

-- What a resource keeps whose content is replaced.
abbrev pub Kept : Resource → Resource → Type 0
Kept r r' = r' ≡ record r {
  uri = r'.uri;
  content = r'.content;
  mime_type = r'.mime_type;
  size_bytes = r'.size_bytes;
}

-- A message that has one at its position keeps the schema version and the channel of that one, and others have those of
-- a new message.
abbrev pub KeepsMeta : (fresh : Value) → Messages → Messages → Type 0
KeepsMeta fresh original no_messages = Unit
KeepsMeta fresh no_messages (message role meta ps made) =
    (meta ≡ fresh) × KeepsMeta fresh no_messages made
KeepsMeta fresh (message old_role old_meta old_ps original) (message role meta ps made) =
    (meta ≡ old_meta) × KeepsMeta fresh original made

-- A part is of the same kind, and has the fields as they were that the legacy payload does not have. An error stays an
-- error, and a resource gets another URI only if it carried nothing from the one it had.
abbrev pub Edited : Reader → Shim → ContentPart → ContentPart → Type 0
Edited reader Shim.tool_pre_invoke (tool_call c) (tool_call c') =
    c' ≡ record c { name = c'.name; arguments = c'.arguments }
Edited reader Shim.tool_post_invoke (tool_result r) (tool_result r') =
    (r' ≡ record r { tool_name = r'.tool_name; content = r'.content; is_error = r'.is_error })
    × ((not r.is_error || r'.is_error) ≡ true)
Edited reader Shim.prompt_pre_fetch (prompt_request r) (prompt_request r') =
    r' ≡ record r { name = r'.name; arguments = r'.arguments }
Edited reader Shim.prompt_post_fetch (prompt_result id name ms c e b)
      (prompt_result id' name' ms' c' e' b') =
    (id' ≡ id) × KeepsMeta reader.new_meta ms ms' × (c' ≡ c) × (e' ≡ e) × (b' ≡ b)
Edited reader Shim.resource_pre_fetch (resource r) (resource r') =
    (r' ≡ record r { uri = r'.uri })
    × ((not (r'.uri == r.uri)
          && (reader.is_embedded r || (is_some r.mime_type || is_some r.size_bytes)))
        ≡ false)
Edited reader Shim.resource_pre_fetch (resource_ref r) (resource_ref r') =
    r' ≡ record r { uri = r'.uri }
Edited reader Shim.resource_post_fetch (resource r) (resource r') = Kept r r'
Edited reader _ p q = false ≡ true

-- The part at the index was edited, and the parts before and behind it are as they were.
pub record IsEdit (reader : Reader) (shim : Shim) (index : ℕ) (content content' : List ContentPart)
    : Type 0 where
  pub before : List ContentPart
  pub after : List ContentPart
  pub old : ContentPart
  pub new : ContentPart
  pub at_index : length before ≡ index
  pub was : content ≡ before ++ (old ∷ after)
  pub is : content' ≡ before ++ (new ∷ after)
  pub edited : Edited reader shim old new
