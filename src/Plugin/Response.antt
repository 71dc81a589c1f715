-- ===== src/Plugin/Response.antt =====
-- The answer of one invocation in crates/cpex-hosts-python/src/plugin.rs: the state that a worker returns, the payload
-- that it returns in its own model, and the part of `invoke` behind `send_task`.
pub mod Answered
pub mod Deltas
use cpex.Prelude.{
  Bool, true, false, not, ◌||◌, String, Option, none, some, List, [], ◌∷◌, insert, is_some,
  if◌then◌else◌,
}
use cpex.Json.{Value, null, object, Fields, end, field, get, delete, member, as_object, entries}
use cpex.Result.{Result, ok, err, ◌>>=◌}
use cpex.Ppe.{Object, Extensions, PluginViolation}
use cpex.Payload.{Payload, identity, delegation, typed, generic, foreign}
use cpex.CredentialPayloads.Identity.{
  IdentityOutcome, resolved, rejected, IdentitySerde, identity_from_worker,
}
use cpex.CredentialPayloads.Delegation.{DelegationEnv, delegation_from_worker}
use cpex.Conversion.{Parser, ErasedResultFields, response_to_result}
use cpex.Extensions.{Core}
use cpex.Plugin.Task.{PluginContext}

abbrev insert_all : List (String × Value) → Object → Object
insert_all [] state = state
insert_all ((key, value) ∷ more) state = insert_all more (insert key value state)

abbrev merge : Option Value → Object → Object
merge (some (object fs)) state = insert_all (entries fs) state
merge _ state = state

abbrev pub member_of : String → Option Value → Option Value
member_of key none = none
member_of key (some v) = member key v

-- Without a `context` there are no states to merge either.
unfoldable pub apply_context_deltas : Value → PluginContext → PluginContext
apply_context_deltas response ctx =
    let context = member "context" response in
    record {
      local_state = merge (member_of "state" context) ctx.local_state;
      global_state =
          merge (member_of "state" (member_of "global_context" context)) ctx.global_state;
    }

unfoldable pub is_ppe_credential_payload : Payload → Bool
is_ppe_credential_payload (identity p) = true
is_ppe_credential_payload (delegation p) = true
is_ppe_credential_payload _ = false

-- A rejection is a deny, and a deny modifies nothing.
abbrev pub identity_result : IdentityOutcome → ErasedResultFields → ErasedResultFields
identity_result (resolved p) fields = record fields { modified_payload = some (identity p) }
identity_result (rejected violation) fields = record fields {
  modified_payload = none;
  continue_processing = false;
  violation = some violation;
}

-- `shim` is `apply_modified` of the message that was translated, if one was.
module _ (s : IdentitySerde) (env : DelegationEnv) where
  modify :
      (shim : Option (Value → Result Payload))
      → Payload
      → Value
      → ErasedResultFields
      → Result ErasedResultFields
  modify (some apply_modified) payload modified fields = do
    p ← apply_modified modified
    ok (record fields { modified_payload = some p })
  modify none (identity p) modified fields = do
    outcome ← identity_from_worker s p modified
    ok (identity_result outcome fields)
  modify none (delegation p) modified fields = do
    q ← delegation_from_worker env p modified
    ok (record fields { modified_payload = some (delegation q) })
  modify none _ modified fields = ok fields

  unfoldable pub apply_translated_modification :
      (shim : Option (Value → Result Payload))
      → Payload
      → Value
      → ErasedResultFields
      → Result ErasedResultFields
  unfolding modify
  apply_translated_modification shim payload modified fields =
      if not fields.continue_processing
      then ok (record fields { modified_payload = none })
      else modify shim payload modified fields

  -- The modified payload, taken out of the response where it is a translated one.
  abbrev pub take_modified : (translated : Bool) → Value → Option Value × Value
  take_modified true (object fs) =
      (get "modified_payload" fs, object (delete "modified_payload" fs))
  take_modified _ response = (none, response)

  abbrev pub when_returned :
      Option (Value → Result Payload)
      → Payload
      → Option Value
      → ErasedResultFields
      → Result ErasedResultFields
  when_returned shim payload none fields = ok fields
  when_returned shim payload (some null) fields = ok fields
  when_returned shim payload (some v) fields = apply_translated_modification shim payload v fields

  unfoldable pub convert_response :
      Core
      → Parser
      → (hook_name : String) → (shim : Option (Value → Result Payload)) → Payload
      → Value
      → Extensions
      → Result ErasedResultFields
  convert_response core parse hook_name shim payload response extensions =
      let translated = is_some shim || is_ppe_credential_payload payload in
      let (returned_modified, rest) = take_modified translated response in
      do
        fields ← response_to_result core parse hook_name rest extensions
        when_returned shim payload returned_modified fields
