-- ===== src/Hooks.antt =====
-- The hook table of crates/cpex-hosts-python/src/conversion.rs: which payload a dispatched hook
-- name carries, and by which name the Python worker knows it.
pub mod Names
use cpex.Prelude.{
  Bool, true, false, String, Option, none, some, List, [], ◌∷◌, find, ◌==◌, if◌then◌else◌,
}
use cpex.Ppe.{
  hook_identity_resolve, hook_token_delegate, hook_cmf_tool_pre_invoke, hook_cmf_tool_post_invoke,
  hook_cmf_llm_input, hook_cmf_llm_output, hook_cmf_prompt_pre_invoke, hook_cmf_prompt_post_invoke,
  hook_cmf_resource_pre_fetch, hook_cmf_resource_post_fetch,
}

pub data PayloadKind : Type 0 where
  cmf_message tool_pre_invoke tool_post_invoke prompt_pre_fetch prompt_post_fetch : PayloadKind
  resource_pre_fetch resource_post_fetch identity_resolve token_delegate generic : PayloadKind

pub record HookRoute : Type 0 where
  pub dispatched : String
  pub kind : PayloadKind
  pub worker : String

abbrev route : String → PayloadKind → String → HookRoute
route dispatched kind worker = record { dispatched = dispatched; kind = kind; worker = worker }

abbrev pub hook_routes : List HookRoute
hook_routes =
    route hook_cmf_tool_pre_invoke cmf_message hook_cmf_tool_pre_invoke
    ∷ route hook_cmf_tool_post_invoke cmf_message hook_cmf_tool_post_invoke
    ∷ route hook_cmf_llm_input cmf_message hook_cmf_llm_input
    ∷ route hook_cmf_llm_output cmf_message hook_cmf_llm_output
    ∷ route hook_cmf_prompt_pre_invoke cmf_message "cmf.prompt_pre_fetch"
    ∷ route hook_cmf_prompt_post_invoke cmf_message "cmf.prompt_post_fetch"
    ∷ route hook_cmf_resource_pre_fetch cmf_message hook_cmf_resource_pre_fetch
    ∷ route hook_cmf_resource_post_fetch cmf_message hook_cmf_resource_post_fetch
    ∷ route hook_identity_resolve identity_resolve "identity_resolve"
    ∷ route hook_token_delegate token_delegate "token_delegate"
    ∷ route "tool_pre_invoke" tool_pre_invoke "tool_pre_invoke"
    ∷ route "tool_post_invoke" tool_post_invoke "tool_post_invoke"
    ∷ route "prompt_pre_fetch" prompt_pre_fetch "prompt_pre_fetch"
    ∷ route "prompt_post_fetch" prompt_post_fetch "prompt_post_fetch"
    ∷ route "resource_pre_fetch" resource_pre_fetch "resource_pre_fetch"
    ∷ route "resource_post_fetch" resource_post_fetch "resource_post_fetch"
    ∷ []

unfoldable pub lookup_route : String → Option HookRoute
lookup_route hook_name = find (λ r. r.dispatched == hook_name) hook_routes

unfoldable pub payload_kind_for_hook : String → PayloadKind
unfolding lookup_route
payload_kind_for_hook hook_name = elim (lookup_route hook_name) [ none ↦ generic | some r ↦ r.kind ]

unfoldable pub worker_hook_name : String → String
unfolding lookup_route
worker_hook_name hook_name = elim (lookup_route hook_name) [ none ↦ hook_name | some r ↦ r.worker ]

is_credential_kind : PayloadKind → Bool
is_credential_kind identity_resolve = true
is_credential_kind token_delegate = true
is_credential_kind _ = false

unfoldable pub is_credential_hook : String → Bool
unfolding payload_kind_for_hook is_credential_kind
is_credential_hook hook_name = is_credential_kind (payload_kind_for_hook hook_name)
