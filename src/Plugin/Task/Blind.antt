-- ===== src/Plugin/Task/Blind.antt =====
-- Which secrets reach the worker of a plugin without their capabilities, in
-- crates/cpex-hosts-python/src/plugin.rs.
use cpex.Prelude.{◌≡◌, refl, Bool, false, String, Option, none, some}
use cpex.Json.{Value}
use cpex.Result.{◌>>=◌, >>=-eq, Serde}
use cpex.Ppe.{
  Headers, HttpExtension, RawCredentials, Extensions, TokenSource, IdentityPayload,
  DelegationPayload,
}
use cpex.Payload.{Payload, identity, delegation}
use cpex.Conversion.{serialize_payload}
use cpex.CredentialPayloads.Delegation.{delegation_to_worker}
use cpex.CredentialPayloads.Identity.Public.{identity_to_worker-public}
use cpex.Credentials.{Capabilities, declares, cap_read_inbound, cap_read_delegated}
use cpex.Credentials.Attach.{attach_credential_for_payload}
use cpex.Credentials.Attach.Undeclared.{attach_credential_for_payload-undeclared}
use cpex.Extensions.{Core, attach_extensions}
use cpex.Extensions.Outbound.{with_secrets, attach_extensions-blind}
use cpex.Plugin.{Plugin}
use cpex.Plugin.Task.{PluginContext, build_task, payload_json, prepare_task}

-- Payloads that differ in tokens and headers alone.
pub data SamePublic : Payload → Payload → Type 0 where
  same : (payload : Payload) → SamePublic payload payload
  identities :
      (p q : IdentityPayload)
      → p.source ≡ q.source
      → p.client_host ≡ q.client_host
      → p.client_port ≡ q.client_port
      → SamePublic (identity p) (identity q)
  delegations :
      (p : DelegationPayload) (other : String)
      → SamePublic (delegation p) (delegation (record p { bearer_token = other }))

serialize_payload-SamePublic :
    (source_json : TokenSource → Serde Value) (p q : Payload)
    → SamePublic p q
    → serialize_payload source_json p ≡ serialize_payload source_json q
unfolding serialize_payload delegation_to_worker
serialize_payload-SamePublic source_json p q (same _) = refl
serialize_payload-SamePublic source_json _ _ (identities p q source host port) =
    identity_to_worker-public source_json p q source host port
serialize_payload-SamePublic source_json _ _ (delegations p other) = refl

payload_json-SamePublic :
    (source_json : TokenSource → Serde Value) (shim : Option Value) (p q : Payload)
    → SamePublic p q
    → payload_json source_json shim p ≡ payload_json source_json shim q
unfolding payload_json
payload_json-SamePublic source_json none p q alike =
    serialize_payload-SamePublic source_json p q alike
payload_json-SamePublic source_json (some json) p q alike = refl

attached-blind :
    (core : Core) (hook_name : String) (capabilities : Capabilities) (p q : Payload)
    (x : Extensions) (http : HttpExtension) (c d : Option RawCredentials)
    (request response request' response' : Headers) (t u : Bool × Bool × Bool)
    → declares cap_read_inbound capabilities ≡ false
    → declares cap_read_delegated capabilities ≡ false
    → (task : Value)
    → (do
      w ←
          attach_credential_for_payload task hook_name p
            (with_secrets x http c request response t)
            capabilities
      attach_extensions core w (with_secrets x http c request response t))
      ≡ (do
        w ←
            attach_credential_for_payload task hook_name q
              (with_secrets x http d request' response' u)
              capabilities
        attach_extensions core w (with_secrets x http d request' response' u))
attached-blind core hook_name capabilities p q x http c d request response request' response' t u
      no_inbound no_delegated task =
    rw
      (
        attach_credential_for_payload-undeclared task hook_name
            (with_secrets x http c request response t) capabilities no_inbound no_delegated p,
        attach_credential_for_payload-undeclared task hook_name
            (with_secrets x http d request' response' u) capabilities no_inbound no_delegated q,
      )
      (attach_extensions-blind core task x http c d request response request' response' t u)

-- The task for a plugin that declares no credential is the same, or the same error, whatever the raw credentials,
-- the request and response headers and the three write tokens of the view are, and whatever token and headers an
-- identity payload or bearer token a delegation payload has. The `secret_headers` of the view are the same.
pub prepare_task-blind :
    (source_json : TokenSource → Serde Value) (core : Core) (to_string : Value → Serde String)
    (fresh : String) (plugin : Plugin) (hook_name : String) (legacy_cmf : Bool)
    (shim : Option Value) (ctx : PluginContext) (p q : Payload) (x : Extensions)
    (http : HttpExtension) (c d : Option RawCredentials)
    (request response request' response' : Headers) (t u : Bool × Bool × Bool)
    → declares cap_read_inbound plugin.config.capabilities ≡ false
    → declares cap_read_delegated plugin.config.capabilities ≡ false
    → SamePublic p q
    → prepare_task source_json core to_string fresh plugin hook_name legacy_cmf shim p
        (with_secrets x http c request response t)
        ctx
      ≡ prepare_task source_json core to_string fresh plugin hook_name legacy_cmf shim q
          (with_secrets x http d request' response' u)
          ctx
unfolding prepare_task
prepare_task-blind source_json core to_string fresh plugin hook_name legacy_cmf shim ctx p q x http
      c d request response request' response' t u no_inbound no_delegated alike =
    >>=-eq _ _ _ _ (payload_json-SamePublic source_json shim p q alike) (λ json.
      >>=-eq (build_task to_string fresh plugin hook_name legacy_cmf json ctx) _ _ _ refl (λ task.
        attached-blind core hook_name plugin.config.capabilities p q x http c d request response
          request' response' t u no_inbound no_delegated task))
