-- ===== src/Legacy/Translate/Inspected.antt =====
-- What a plugin that is served a legacy payload gets to see, in crates/cpex-hosts-python/src/legacy/cmf_shim.rs.
use cpex.Prelude.{
  ◌≡◌, refl, subst, ap, ℕ, Bool, true, false, not, ◌&&◌, String, Option, none, some, List, [], ◌∷◌,
  find, All, Bool-cases, inl, inr,
}
use cpex.Json.{Value}
use cpex.HostError.{HostError}
use cpex.Result.{ok, >>=-eq-ok, ok-injective}
use cpex.Cmf.{
  ContentPart, tool_call, tool_result, resource, resource_ref, prompt_request, prompt_result,
}
use cpex.Legacy.{Shim, for_hook, legacy_hook}
use cpex.Legacy.Parts.{is_set, result_says_error}
use cpex.Legacy.Translate.{
  unless-eq-ok, enumerate, candidates, is_hidden, the_only, no_sibling, legacy_json, ShimmedPayload,
  translate, translate_message, translate_hook, to_legacy, shim_error,
}

-- The part is of the kind of the hook, and has none of the fields that the hook refuses: a namespace of a tool call, an
-- error of a tool result that its content does not show, a server of a prompt request, the rendered content and the
-- error of a prompt result, a version of a resource, and behind a fetch its binary content. Before a fetch the payload
-- is the URI alone, and content, also binary, is passed over.
abbrev pub Shows : Shim → ContentPart → Type 0
Shows Shim.tool_pre_invoke (tool_call c) = is_set c.namespace ≡ false
Shows Shim.tool_post_invoke (tool_result r) =
    (r.is_error && not (result_says_error r.content)) ≡ false
Shows Shim.prompt_pre_fetch (prompt_request r) = is_set r.server_id ≡ false
Shows Shim.prompt_post_fetch (prompt_result id name ms content error is_error) =
    (is_set content ≡ false) × (is_set error ≡ false) × (is_error ≡ false)
Shows Shim.resource_pre_fetch (resource r) = is_set r.version ≡ false
Shows Shim.resource_pre_fetch (resource_ref r) = Unit
Shows Shim.resource_post_fetch (resource r) = (is_set r.version ≡ false) × (r.has_blob ≡ false)
Shows _ p = false ≡ true

legacy_json-Shows :
    (error : String → HostError) (shim : Shim) (p : ContentPart) (json : Value)
    → legacy_json error shim p ≡ ok json
    → Shows shim p
unfolding legacy_json
legacy_json-Shows error Shim.tool_pre_invoke (tool_call c) json h =
    (unless-eq-ok (is_set c.namespace) _ _ h).0
legacy_json-Shows error Shim.tool_post_invoke (tool_result r) json h =
    (unless-eq-ok (r.is_error && not (result_says_error r.content)) _ _ h).0
legacy_json-Shows error Shim.prompt_pre_fetch (prompt_request r) json h =
    (unless-eq-ok (is_set r.server_id) _ _ h).0
legacy_json-Shows error Shim.prompt_post_fetch
      (prompt_result id name ms content error_message is_error) json h =
    let (a, h₁) = unless-eq-ok (is_set content) _ _ h in
    let (b, h₂) = unless-eq-ok (is_set error_message) _ _ h₁ in
    (a, b, (unless-eq-ok is_error _ _ h₂).0)
legacy_json-Shows error Shim.resource_pre_fetch (resource r) json h =
    (unless-eq-ok (is_set r.version) _ _ h).0
legacy_json-Shows error Shim.resource_pre_fetch (resource_ref r) json h = tt
legacy_json-Shows error Shim.resource_post_fetch (resource r) json h =
    let (a, h₁) = unless-eq-ok (is_set r.version) _ _ h in (a, (unless-eq-ok r.has_blob _ _ h₁).0)
legacy_json-Shows error _ p json h = cc

the_only-eq-ok :
    (error : String → HostError) (shim : Shim) (ps : List (ℕ × ContentPart))
    (only : ℕ × ContentPart)
    → the_only error shim ps ≡ ok only
    → ps ≡ only ∷ []
unfolding the_only
the_only-eq-ok error shim [] only h = cc
the_only-eq-ok error shim (p ∷ []) only h = ap (λ q. q ∷ []) (ok-injective p only h)
the_only-eq-ok error shim (p ∷ q ∷ ps) only h = cc

-- No part beside the one that is translated has content, if the hook is a post hook.
abbrev pub Alone : Shim → ℕ → List (ℕ × ContentPart) → Type 0
Alone shim only = All (λ p. is_hidden shim only p ≡ false)

find-none :
    (test : ℕ × ContentPart → Bool) (ps : List (ℕ × ContentPart))
    → find test ps ≡ none
    → All (λ p. test p ≡ false) ps
find-none test [] h = tt
find-none test (p ∷ ps) h = elim (Bool-cases (test p)) [
  | inl hit ↦ let off = rw hit at h in cc
  | inr miss ↦ (miss, find-none test ps (rw miss at h))
]

no_sibling-none :
    (error : String → HostError) (shim : Shim) (found : Option (ℕ × ContentPart)) (done : Unit {0})
    → no_sibling error shim found ≡ ok done
    → found ≡ none
unfolding no_sibling
no_sibling-none error shim none done h = refl
no_sibling-none error shim (some p) done h = cc

-- A translated message: the one part of its kind, without what its hook refuses, beside nothing that is hidden.
pub record IsInspected (hook_name : String) (content : List ContentPart) (s : ShimmedPayload)
    : Type 0 where
  pub known : for_hook hook_name ≡ some s.shim
  pub kept : s.original ≡ content
  pub seen : ContentPart
  pub only : candidates s.shim content ≡ (s.index, seen) ∷ []
  pub shown : Shows s.shim seen
  pub alone : Alone s.shim s.index (enumerate 0 content)

translate-IsInspected :
    (shim : Shim) (hook_name : String) (content : List ContentPart) (s : ShimmedPayload)
    → for_hook hook_name ≡ some shim
    → translate shim hook_name content ≡ ok s
    → IsInspected hook_name content s
unfolding translate
translate-IsInspected shim hook_name content s known h =
    let (only, e, h₁) =
      >>=-eq-ok (the_only (shim_error hook_name (legacy_hook shim)) shim (candidates shim content))
        _ h in
    let (done, quiet, h₂) =
      >>=-eq-ok
        (no_sibling (shim_error hook_name (legacy_hook shim)) shim
          (find (is_hidden shim only.0) (enumerate 0 content)))
        _ h₁ in
    let (json, made, h₃) =
      >>=-eq-ok (legacy_json (shim_error hook_name (legacy_hook shim)) shim only.1) _ h₂ in
    subst (IsInspected hook_name content) (ok-injective _ s h₃) record {
      known = known;
      kept = refl;
      seen = only.1;
      only = the_only-eq-ok _ shim (candidates shim content) only e;
      shown = legacy_json-Shows _ shim only.1 json made;
      alone =
          find-none (is_hidden shim only.0) (enumerate 0 content)
            (no_sibling-none _ shim _ done quiet);
    }

hooked :
    (found : Option Shim) (hook_name : String) (content : List ContentPart) (s : ShimmedPayload)
    → for_hook hook_name ≡ found
    → translate_hook found hook_name (some content) ≡ ok s
    → IsInspected hook_name content s
unfolding translate_hook translate_message
hooked none hook_name content s known h = cc
hooked (some shim) hook_name content s known h =
    translate-IsInspected shim hook_name content s known h

-- A message that is translated has exactly one part of the kind of its hook, and that part has none of the fields that the
-- hook refuses: a namespace, a server, a version, rendered content, an error that does not show, and binary content
-- behind a fetch. On a post hook no other part has content. Before a fetch a resource may have content, which the
-- legacy payload does not carry.
pub to_legacy-IsInspected :
    (hook_name : String) (content : List ContentPart) (s : ShimmedPayload)
    → to_legacy hook_name (some content) ≡ ok s
    → IsInspected hook_name content s
unfolding to_legacy
to_legacy-IsInspected hook_name content s h = hooked (for_hook hook_name) hook_name content s refl h
