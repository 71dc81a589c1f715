-- ===== src/Plugin/Response/Answered.antt =====
-- What a hook can come to when a worker answers it, in crates/cpex-hosts-python/src/plugin.rs.
use cpex.Prelude.{
  ◌≡◌, refl, subst, ap, sym, ◌∙◌, true, String, Option, none, some, ◌⊎◌, inl, inr, Bool-cases,
}
use cpex.Json.{Value, null, bool, number, string, array, object, member, get-delete}
use cpex.Result.{ok, >>=-eq-ok, ok-injective}
use cpex.Ppe.{Extensions, IdentityPayload}
use cpex.Payload.{identity}
use cpex.CredentialPayloads.Identity.{
  IdentityOutcome, resolved, rejected, IdentitySerde, identity_from_worker,
}
use cpex.CredentialPayloads.Identity.Answer.{SameInput, identity_from_worker-Answers}
use cpex.CredentialPayloads.Delegation.{DelegationEnv}
use cpex.Conversion.{
  Parser, ErasedResultFields, response_to_result, when_set, parse_violation, deserialize_payload,
  returned_extensions,
}
use cpex.Extensions.{Core, modified_extensions_field}
use cpex.Plugin.Response.{
  identity_result, modify, apply_translated_modification, take_modified, when_returned,
  convert_response, is_ppe_credential_payload,
}

-- No payload, or one that a hook that goes on puts in the place of the identity: with its token, headers and client.
abbrev pub KeepsInput : IdentityPayload → ErasedResultFields → Type 0
KeepsInput p fields =
    (fields.modified_payload ≡ none)
    ⊎ ((q : IdentityPayload) × (fields.modified_payload ≡ some (identity q))
        × SameInput p q
        × (fields.continue_processing ≡ true))

identity_result-KeepsInput :
    (s : IdentitySerde) (p : IdentityPayload) (modified : Value) (o : IdentityOutcome)
    (fields : ErasedResultFields)
    → fields.continue_processing ≡ true
    → identity_from_worker s p modified ≡ ok o
    → KeepsInput p (identity_result o fields)
identity_result-KeepsInput s p modified (resolved q) fields on h =
    let (fs, same, known, (input, flag)) =
      identity_from_worker-Answers s p modified (resolved q) h in
    inr (q, refl, input, on)
identity_result-KeepsInput s p modified (rejected v) fields on h = inl refl

module _ (s : IdentitySerde) (env : DelegationEnv) (p : IdentityPayload) where
  apply-KeepsInput :
      (modified : Value) (fields fields' : ErasedResultFields)
      → apply_translated_modification s env none (identity p) modified fields ≡ ok fields'
      → KeepsInput p fields'
  unfolding apply_translated_modification modify
  apply-KeepsInput modified fields fields' h = elim (Bool-cases fields.continue_processing) [
    | inl on ↦
        let (o, answered, same) = >>=-eq-ok (identity_from_worker s p modified) _ (rw on at h) in
        subst (KeepsInput p) (ok-injective _ fields' same) (
          identity_result-KeepsInput s p modified o (record fields { continue_processing = true })
            refl answered)
    | inr off ↦ inl (sym (ap (λ f. f.modified_payload) (ok-injective _ fields' (rw off at h))))
  ]

  when_returned-KeepsInput :
      (modified : Option Value) (fields fields' : ErasedResultFields)
      → fields.modified_payload ≡ none
      → when_returned s env none (identity p) modified fields ≡ ok fields'
      → KeepsInput p fields'
  when_returned-KeepsInput none fields fields' none_yet h =
      inl (sym (ap (λ f. f.modified_payload) (ok-injective _ fields' h)) ∙ none_yet)
  when_returned-KeepsInput (some null) fields fields' none_yet h =
      inl (sym (ap (λ f. f.modified_payload) (ok-injective _ fields' h)) ∙ none_yet)
  when_returned-KeepsInput (some (bool b)) fields fields' none_yet h =
      apply-KeepsInput (bool b) fields fields' h
  when_returned-KeepsInput (some (number n)) fields fields' none_yet h =
      apply-KeepsInput (number n) fields fields' h
  when_returned-KeepsInput (some (string t)) fields fields' none_yet h =
      apply-KeepsInput (string t) fields fields' h
  when_returned-KeepsInput (some (array vs)) fields fields' none_yet h =
      apply-KeepsInput (array vs) fields fields' h
  when_returned-KeepsInput (some (object fs)) fields fields' none_yet h =
      apply-KeepsInput (object fs) fields fields' h

unset-modified :
    (core : Core) (parse : Parser) (hook : String) (response : Value) (x : Extensions)
    (fields : ErasedResultFields)
    → member "modified_payload" response ≡ none
    → response_to_result core parse hook response x ≡ ok fields
    → fields.modified_payload ≡ none
unfolding response_to_result
unset-modified core parse hook response x fields unset h =
    let (violation, parsed_violation, h₁) =
      >>=-eq-ok (when_set parse_violation (member "violation" response)) _ h in
    let (payload, read, h₂) =
      >>=-eq-ok (when_set (deserialize_payload parse hook) (member "modified_payload" response)) _
        h₁ in
    let (extensions, returned, h₃) =
      >>=-eq-ok (returned_extensions core x (member modified_extensions_field response)) _ h₂ in
    sym (ap (λ f. f.modified_payload) (ok-injective _ fields h₃))
    ∙ sym (ok-injective none payload (rw unset at read))

taken :
    (s : IdentitySerde) (env : DelegationEnv) (response : Value)
    → member "modified_payload" (take_modified s env true response).1 ≡ none
taken s env (object fs) = rw (get-delete "modified_payload" "modified_payload" fs) refl
taken s env null = refl
taken s env (bool b) = refl
taken s env (number n) = refl
taken s env (string t) = refl
taken s env (array vs) = refl

-- However a worker answers a hook with an identity payload: if the answer is taken, the hook comes out without a payload,
-- or it goes on with an identity that has the token, the source, the headers and the client of the one that was sent.
-- So a worker cannot put another credential in its place, and a deny carries no payload.
pub convert_response-KeepsInput :
    (s : IdentitySerde) (env : DelegationEnv) (core : Core) (parse : Parser) (hook_name : String)
    (p : IdentityPayload) (response : Value) (x : Extensions) (fields : ErasedResultFields)
    → convert_response s env core parse hook_name none (identity p) response x ≡ ok fields
    → KeepsInput p fields
unfolding convert_response is_ppe_credential_payload
convert_response-KeepsInput s env core parse hook_name p response x fields h =
    let (first, converted, rest) =
      >>=-eq-ok (response_to_result core parse hook_name (take_modified s env true response).1 x) _
        h in
    when_returned-KeepsInput s env p _ first fields
      (unset-modified core parse hook_name _ x first (taken s env response) converted) rest
