-- ===== src/Plugin/Tests.antt =====
-- Plugins, workers and answers to run crates/cpex-hosts-python/src/plugin.rs on.
use cpex.Prelude.{◌≡◌, refl, true, false, none, some, [], ◌∷◌, ◌++◌, ◌↔◌, lookup, arith}
use cpex.Json.{Value, null, string, object, end, field, get, delete, member, pos}
use cpex.Result.{ok, parsed}
use cpex.Ppe.{HttpExtension, IdentityPayload, TokenSource, DelegationMode}
use cpex.Payload.{identity}
use cpex.CredentialPayloads.Identity.{IdentitySerde, identity_from_worker}
use cpex.CredentialPayloads.Delegation.{DelegationEnv}
use cpex.Conversion.{ErasedResultFields, response_to_result}
use cpex.Conversion.Samples.{core, reparse, view, reads_nothing, writes_nothing}
use cpex.Extensions.Outbound.{with_secrets}
use cpex.Worker.{WorkerCapabilities}
use cpex.Plugin.{Plugin, verify_worker_understands, required_worker_features}
use cpex.Plugin.Handshake.{Understands, verify_worker_understands_iff}
use cpex.Plugin.Lifecycle.{
  System, idle, stopped, Reachable, start, step, reserves, goes_on, reaps, launches, sets_flag,
  takes, discards, stops, killed, spawned, initialized,
}
use cpex.Plugin.Lifecycle.Orphans.{in_slot, Reachable-stopped}
use cpex.Plugin.Respawn.{new}
use cpex.Plugin.Respawn.Budget.{reserve_all, up_to_budget, reserve_all-new}
use cpex.Plugin.Task.{PluginContext, prepare_task}
use cpex.Plugin.Task.Blind.{identities, prepare_task-blind}
use cpex.Plugin.Response.{
  member_of, apply_context_deltas, convert_response, is_ppe_credential_payload,
  apply_translated_modification,
}
use cpex.Plugin.Response.Deltas.{over, returned, apply_context_deltas-over}
use cpex.Plugin.Response.Answered.{KeepsInput, convert_response-KeepsInput}

-- Worker 1 dies, worker 2 is launched in its place, and `shutdown` comes before it is installed.
abbrev ended : System
ended = record {
  slot = none;
  shut_down = true;
  alive = killed 1 (killed 2 (spawned 2 (killed 1 (initialized 1).alive)));
  respawn = idle;
  shutdown = stopped;
}

ended-reached : Reachable 1 ended
ended-reached =
    let replacing =
      step _ _ (step _ _ (step _ _ start (reserves _ 1 refl refl refl)) (goes_on _ 1 refl refl))
        (reaps _ 1 refl) in
    let late = step _ _ (step _ _ replacing (launches _ 2 refl (λ e. cc))) (sets_flag _ refl) in
    step _ _ (step _ _ (step _ _ late (takes _ 1 refl refl)) (discards _ 2 refl refl))
      (stops _ 1 refl)

Reachable-stopped_example : (in_slot none 2 ≡ false) × (ended.alive 2 ≡ false)
Reachable-stopped_example = Reachable-stopped 1 ended 2 ended-reached refl refl

reserve_all-new_example :
    reserve_all new (0 ∷ ((5 ∷ 6 ∷ 7 ∷ []) ++ (60000000000 ∷ (60000000001 ∷ []))))
    ≡ some 1 ∷ (up_to_budget 1 (5 ∷ 6 ∷ 7 ∷ []) ++ (some 1 ∷ up_to_budget 1 (60000000001 ∷ [])))
reserve_all-new_example =
    reserve_all-new 0 60000000000 (5 ∷ 6 ∷ 7 ∷ []) (60000000001 ∷ [])
      (omega arith, (omega arith, (omega arith, tt))) (omega arith) (omega arith, tt)

abbrev plugin : Plugin
plugin = record {
  config = record {
    name = "filter";
    kind = "isolated_venv";
    hooks = "identity.resolve" ∷ [];
    capabilities = "read_labels" ∷ "read_all" ∷ [];
    config = none;
  };
  class_name = "demo.Filter";
  plugin_dirs = "plugins" ∷ [];
}

abbrev old_worker : WorkerCapabilities
old_worker = record { protocol_version = 1; features = "credential" ∷ []; cpex_version = none }

verify_worker_understands_iff_example :
    (verify_worker_understands plugin (ok old_worker) ≡ ok tt)
    ↔ Understands (required_worker_features plugin) (ok old_worker)
verify_worker_understands_iff_example = verify_worker_understands_iff plugin (ok old_worker)

abbrev caller : IdentityPayload
caller = record {
  raw_token = "t";
  source = TokenSource.unlisted "bearer";
  source_header = none;
  headers = ("authorization", "t") ∷ [];
  client_host = none;
  client_port = none;
  subject = none;
  delegation = none;
  raw_claims = [];
}

abbrev other_caller : IdentityPayload
other_caller = record caller { raw_token = "u"; headers = [] }

abbrev http : HttpExtension
http = record {
  request_headers = [];
  secret_headers = [];
  response_headers = [];
  status = none;
  method = none;
  path = none;
  host = none;
  scheme = none;
}

abbrev context : PluginContext
context = record { local_state = ("a", null) ∷ []; global_state = [] }

prepare_task-blind_example :
    prepare_task
      (λ s. parsed (string "bearer"))
      core
      (λ v. parsed "{}")
      "id"
      plugin
      "identity.resolve"
      false
      none
      (identity caller)
      (with_secrets view http none (("cookie", "c") ∷ []) [] (true, true, false))
      context
    ≡ prepare_task
        (λ s. parsed (string "bearer"))
        core
        (λ v. parsed "{}")
        "id"
        plugin
        "identity.resolve"
        false
        none
        (identity other_caller)
        (with_secrets view http none [] [] (false, true, true))
        context
prepare_task-blind_example =
    prepare_task-blind (λ s. parsed (string "bearer")) core (λ v. parsed "{}") "id" plugin
      "identity.resolve" false none context (identity caller) (identity other_caller) view http none
      none (("cookie", "c") ∷ []) [] [] [] (true, true, false) (false, true, true) refl refl
      (identities caller other_caller refl refl refl)

abbrev response : Value
response = object (
    field "context"
      (object (field "state" (object (field "a" (string "new") (field "b" (string "x") end))) end))
      (field "modified_payload" (object (field "raw_token" null end)) end))

apply_context_deltas-over_example :
    (lookup "a" (apply_context_deltas response context).local_state
      ≡ over
          (returned (member_of "state" (member "context" response)) "a")
          (lookup "a" context.local_state))
    × (lookup "a" (apply_context_deltas response context).global_state
        ≡ over
            (returned
              (member_of "state" (member_of "global_context" (member "context" response)))
              "a")
            (lookup "a" context.global_state))
unfolding get
apply_context_deltas-over_example =
    apply_context_deltas-over response context "a" (refl, (refl, tt)) tt

abbrev serde : IdentitySerde
serde = record {
  subject_of = reads_nothing;
  subject_json = writes_nothing;
  delegation_of = reads_nothing;
  delegation_json = writes_nothing;
}

abbrev env : DelegationEnv
env = record {
  now = pos 0;
  expiry = λ now secs. none;
  default_mode = λ s. DelegationMode.on_behalf_of_user;
  update_of = reads_nothing;
  update_json = writes_nothing;
}

abbrev went_on : ErasedResultFields
went_on = record {
  continue_processing = true;
  modified_payload = some (identity caller);
  modified_extensions = none;
  violation = none;
}

convert_response-KeepsInput_example : KeepsInput caller went_on
unfolding convert_response response_to_result is_ppe_credential_payload get delete
    apply_translated_modification identity_from_worker
convert_response-KeepsInput_example =
    convert_response-KeepsInput serde env core reparse "identity.resolve" caller response view
      went_on refl
