-- ===== src/Conversion/Decision.antt =====
-- What of a response decides, of crates/cpex-hosts-python/src/conversion.rs.
use cpex.Prelude.{
  ◌≡◌, refl, sym, ap, ◌⊎◌, ◌↔◌, inl, inr, Bool, false, String, Option, none, some, arith,
}
use cpex.Json.{Value, null, bool, member}
use cpex.Result.{Result, ok, >>=-eq-ok}
use cpex.Ppe.{Extensions}
use cpex.Payload.{Payload, PayloadType, identity, delegation, typed, generic, foreign}
use cpex.Hooks.{PayloadKind, payload_kind_for_hook}
use cpex.Extensions.{Core, modified_extensions_field}
use cpex.Conversion.{
  Parser, ErasedResultFields, when_set, or_true, response_to_result, parse_violation,
  deserialize_payload, parse_kind, parse_typed, returned_extensions,
}

-- A member that is absent or `null`.
abbrev pub IsUnset : Option Value → Type 0
IsUnset v = (v ≡ none) ⊎ (v ≡ some null)

-- Processing stops exactly if the response says `false`; and there is a violation, and a modified
-- payload, exactly if the response has one that is not `null`.
pub record Decides (response : Value) (r : ErasedResultFields) : Type 0 where
  pub stops :
      (r.continue_processing ≡ false) ↔ (member "continue_processing" response ≡ some (bool false))
  pub denies : (r.violation ≡ none) ↔ IsUnset (member "violation" response)
  pub modifies : (r.modified_payload ≡ none) ↔ IsUnset (member "modified_payload" response)

or_true-false : (o : Option Value) → (or_true o ≡ false) ↔ (o ≡ some (bool false))
or_true-false none = (λ h. ground arith, λ h. ground arith)
or_true-false (some (bool b)) = (λ h. ap (λ (c : Bool). some (bool c)) h, λ h. ap or_true h)
or_true-false (some v) = (λ h. ground arith, λ h. ap or_true h)

when_set-none {ℓ} :
    {A : Type ℓ} (read : Value → Result A) (o : Option Value) (a : Option A)
    → when_set read o ≡ ok a
    → (a ≡ none) ↔ IsUnset o
when_set-none read none a h = (λ e. inl refl, λ e. ground arith)
when_set-none read (some null) a h = (λ e. inr refl, λ e. ground arith)
when_set-none read (some v) a h =
    let (b, made, same) = >>=-eq-ok (read v) (λ b. ok (some b)) h in
    (λ e. ground arith, λ e. ground arith)

-- If a response is accepted, processing stops exactly if it says `false`, and the result has a
-- violation, or a modified payload, exactly if the response has one that is not `null`.
pub response_to_result-Decides :
    (core : Core) (parse : Parser) (hook : String) (response : Value) (x : Extensions)
    (r : ErasedResultFields)
    → response_to_result core parse hook response x ≡ ok r
    → Decides response r
unfolding response_to_result
response_to_result-Decides core parse hook response x r h =
    let (violation, e, h₁) =
      >>=-eq-ok (when_set parse_violation (member "violation" response)) _ h in
    let (payload, f, h₂) =
      >>=-eq-ok (when_set (deserialize_payload parse hook) (member "modified_payload" response)) _
        h₁ in
    let (extensions, g, h₃) =
      >>=-eq-ok (returned_extensions core x (member modified_extensions_field response)) _ h₂ in
    let made = result_eq _ r h₃ in
    rw made (record {
      stops = or_true-false (member "continue_processing" response);
      denies = when_set-none parse_violation (member "violation" response) violation e;
      modifies =
          when_set-none (deserialize_payload parse hook) (member "modified_payload" response)
            payload f;
    })
  where
    result_eq : (a b : ErasedResultFields) → ok a ≡ ok b → b ≡ a
    result_eq a b e = ground arith

-- The kind of the hooks that carry a type as it is.
abbrev pub kind_of_type : PayloadType → PayloadKind
kind_of_type PayloadType.message = PayloadKind.cmf_message
kind_of_type PayloadType.tool_pre_invoke = PayloadKind.tool_pre_invoke
kind_of_type PayloadType.tool_post_invoke = PayloadKind.tool_post_invoke
kind_of_type PayloadType.prompt_pre_fetch = PayloadKind.prompt_pre_fetch
kind_of_type PayloadType.prompt_post_fetch = PayloadKind.prompt_post_fetch
kind_of_type PayloadType.resource_pre_fetch = PayloadKind.resource_pre_fetch
kind_of_type PayloadType.resource_post_fetch = PayloadKind.resource_post_fetch
kind_of_type PayloadType.identity_resolve = PayloadKind.identity_resolve
kind_of_type PayloadType.token_delegate = PayloadKind.token_delegate

-- The kind of the hooks that a payload is for.
abbrev pub kind_of : Payload → PayloadKind
kind_of (identity p) = PayloadKind.identity_resolve
kind_of (delegation p) = PayloadKind.token_delegate
kind_of (typed t json) = kind_of_type t
kind_of (generic v) = PayloadKind.generic
kind_of foreign = PayloadKind.generic

parse_typed-kind :
    (parse : Parser) (t : PayloadType) (hook : String) (v : Value) (p : Payload)
    → parse_typed parse t hook v ≡ ok p
    → kind_of p ≡ kind_of_type t
unfolding parse_typed
parse_typed-kind parse t hook v p h =
    let (json, read, same) = >>=-eq-ok _ (λ j. ok (typed t j)) h in
    let e : p ≡ typed t json = ground arith in rw e refl

parse_kind-kind :
    (parse : Parser) (kind : PayloadKind) (hook : String) (v : Value) (p : Payload)
    → parse_kind parse kind hook v ≡ ok p
    → kind_of p ≡ kind
unfolding parse_kind
parse_kind-kind parse PayloadKind.cmf_message hook v p h =
    parse_typed-kind parse PayloadType.message hook v p h
parse_kind-kind parse PayloadKind.tool_pre_invoke hook v p h =
    parse_typed-kind parse PayloadType.tool_pre_invoke hook v p h
parse_kind-kind parse PayloadKind.tool_post_invoke hook v p h =
    parse_typed-kind parse PayloadType.tool_post_invoke hook v p h
parse_kind-kind parse PayloadKind.prompt_pre_fetch hook v p h =
    parse_typed-kind parse PayloadType.prompt_pre_fetch hook v p h
parse_kind-kind parse PayloadKind.prompt_post_fetch hook v p h =
    parse_typed-kind parse PayloadType.prompt_post_fetch hook v p h
parse_kind-kind parse PayloadKind.resource_pre_fetch hook v p h =
    parse_typed-kind parse PayloadType.resource_pre_fetch hook v p h
parse_kind-kind parse PayloadKind.resource_post_fetch hook v p h =
    parse_typed-kind parse PayloadType.resource_post_fetch hook v p h
parse_kind-kind parse PayloadKind.identity_resolve hook v p h =
    parse_typed-kind parse PayloadType.identity_resolve hook v p h
parse_kind-kind parse PayloadKind.token_delegate hook v p h =
    parse_typed-kind parse PayloadType.token_delegate hook v p h
parse_kind-kind parse PayloadKind.generic hook v p h =
    let same : generic v ≡ p = ground arith in rw (sym same) refl

-- A modified payload that is accepted is of the kind that its hook carries.
pub deserialize_payload-kind :
    (parse : Parser) (hook : String) (v : Value) (p : Payload)
    → deserialize_payload parse hook v ≡ ok p
    → kind_of p ≡ payload_kind_for_hook hook
unfolding deserialize_payload
deserialize_payload-kind parse hook v p h =
    parse_kind-kind parse (payload_kind_for_hook hook) hook v p h
