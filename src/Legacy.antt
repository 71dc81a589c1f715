-- ===== src/Legacy.antt =====
-- The hooks of crates/cpex-hosts-python/src/legacy/cmf_shim.rs: which are served by a legacy payload, and
-- under which legacy name.
pub mod Parts
pub mod Payloads
pub mod Translate
use cpex.Prelude.{
  Bool, true, false, ◌||◌, String, Option, none, some, List, [], ◌∷◌, find, ◌==◌, is_some,
}
use cpex.Ppe.{
  hook_cmf_tool_pre_invoke, hook_cmf_tool_post_invoke, hook_cmf_llm_input, hook_cmf_llm_output,
  hook_cmf_prompt_pre_invoke, hook_cmf_prompt_post_invoke, hook_cmf_resource_pre_fetch,
  hook_cmf_resource_post_fetch,
}

pub data Shim : Type 0 where
  tool_pre_invoke tool_post_invoke prompt_pre_fetch : Shim
  prompt_post_fetch resource_pre_fetch resource_post_fetch : Shim

abbrev pub shimmed_hooks : List (String × Shim)
shimmed_hooks =
    (hook_cmf_tool_pre_invoke, tool_pre_invoke)
    ∷ (hook_cmf_tool_post_invoke, tool_post_invoke)
    ∷ (hook_cmf_prompt_pre_invoke, prompt_pre_fetch)
    ∷ (hook_cmf_prompt_post_invoke, prompt_post_fetch)
    ∷ (hook_cmf_resource_pre_fetch, resource_pre_fetch)
    ∷ (hook_cmf_resource_post_fetch, resource_post_fetch)
    ∷ []

unfoldable pub for_hook : String → Option Shim
for_hook hook_name = elim (find (λ h. h.0 == hook_name) shimmed_hooks) [
  | none ↦ none
  | some h ↦ some h.1
]

unfoldable pub legacy_hook : Shim → String
legacy_hook tool_pre_invoke = "tool_pre_invoke"
legacy_hook tool_post_invoke = "tool_post_invoke"
legacy_hook prompt_pre_fetch = "prompt_pre_fetch"
legacy_hook prompt_post_fetch = "prompt_post_fetch"
legacy_hook resource_pre_fetch = "resource_pre_fetch"
legacy_hook resource_post_fetch = "resource_post_fetch"

unfoldable pub is_post : Shim → Bool
is_post tool_post_invoke = true
is_post prompt_post_fetch = true
is_post resource_post_fetch = true
is_post _ = false

unfoldable pub is_cmf_hook : String → Bool
unfolding for_hook
is_cmf_hook hook_name =
    is_some (for_hook hook_name)
    || (hook_name == hook_cmf_llm_input || hook_name == hook_cmf_llm_output)

unfoldable pub legacy_hook_name : String → Option String
unfolding for_hook legacy_hook
legacy_hook_name hook_name = elim (for_hook hook_name) [
  | none ↦ none
  | some shim ↦ some (legacy_hook shim)
]
