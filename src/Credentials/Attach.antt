-- ===== src/Credentials/Attach.antt =====
-- `attach_credential` and `attach_credential_for_payload` of
-- crates/cpex-hosts-python/src/credentials.rs.
pub mod Tokens
pub mod Gate
pub mod Undeclared
use Prim.Native.String.{◌++◌}
use cpex.Prelude.{
  Bool, true, false, String, Option, none, some, List, [], ◌∷◌, any, insert, if◌then◌else◌,
}
use cpex.Text.{trim, is_empty, eq_ignore_ascii_case}
use cpex.Json.{Value}
use cpex.HostError.{credential}
use cpex.Result.{Result, ok, err, ◌>>=◌, ok_or}
use cpex.Ppe
use cpex.Ppe.{Extensions, IdentityPayload, DelegationPayload}
use cpex.Payload.{Payload, identity, delegation}
use cpex.Hooks.{PayloadKind, payload_kind_for_hook}
use cpex.CredentialPayloads.Identity.{inbound_token, credential_header_name}
use cpex.Credentials.{
  InboundCredential, DelegatedCredential, CredentialDto, Capabilities, declares, cap_read_inbound,
  cap_read_delegated, refusal, token_source_kind, insert_dto, build_inbound,
}
use cpex.Credentials.Delegated.{requested_audience, build_delegated}

abbrev pub inbound_dto : InboundCredential → CredentialDto
inbound_dto c = record { inbound = some c; delegated = none }

abbrev pub delegated_dto : DelegatedCredential → CredentialDto
delegated_dto c = record { inbound = none; delegated = some c }

attach_inbound : Value → String → Extensions → Capabilities → Result Value
attach_inbound task hook extensions capabilities =
    if declares cap_read_inbound capabilities
    then (do c ← build_inbound extensions hook; insert_dto task (inbound_dto c))
    else ok task

attach_delegated : Value → String → Extensions → Capabilities → Result Value
attach_delegated task hook extensions capabilities =
    if declares cap_read_delegated capabilities
    then (do
      c ← build_delegated extensions hook (requested_audience task)
      insert_dto task (delegated_dto c))
    else ok task

attach_by_kind : PayloadKind → Value → String → Extensions → Capabilities → Result Value
attach_by_kind PayloadKind.identity_resolve task hook extensions capabilities =
    attach_inbound task hook extensions capabilities
attach_by_kind PayloadKind.token_delegate task hook extensions capabilities =
    attach_delegated task hook extensions capabilities
attach_by_kind _ task hook extensions capabilities = ok task

unfoldable pub attach_credential : Value → String → Extensions → Capabilities → Result Value
unfolding attach_by_kind attach_inbound attach_delegated
attach_credential task hook extensions capabilities =
    attach_by_kind (payload_kind_for_hook hook) task hook extensions capabilities

-- The header map travels whole, with the credential's header added if it is not among them.
unfoldable pub inbound_from_identity : IdentityPayload → String → Result InboundCredential
inbound_from_identity p hook = do
  token ← ok_or (inbound_token p) (
      refusal cap_read_inbound hook
        "the identity payload carries no credential, in `raw_token` or its source header. Refusing to dispatch without the token it asked for")
  let header = credential_header_name p
  let headers =
      if any (λ h. eq_ignore_ascii_case h.0 header) p.headers
      then p.headers
      else insert header token p.headers
  ok (record {
    token = token;
    source_header = header;
    kind = token_source_kind p.source;
    headers = some headers;
  })

abbrev or_empty : Option String → String
or_empty none = ""
or_empty (some s) = s

unfoldable pub delegated_from_payload : DelegationPayload → String → Result DelegatedCredential
unfolding trim is_empty
delegated_from_payload p hook =
    if is_empty (trim p.bearer_token)
    then err (
        refusal cap_read_inbound hook
          "the delegation payload carries no bearer token. Refusing to dispatch without the token it asked for")
    else ok (record {
      token = p.bearer_token;
      outbound_header = "Authorization";
      audience = or_empty p.target_audience;
      scopes = p.required_permissions;
    })

-- The credential of a payload that carries its own, by hook; `none` leaves it to the extensions.
payload_dto : PayloadKind → Payload → String → Option (Result CredentialDto)
payload_dto PayloadKind.identity_resolve (identity p) hook =
    some (do c ← inbound_from_identity p hook; ok (inbound_dto c))
payload_dto PayloadKind.token_delegate (delegation p) hook =
    some (do c ← delegated_from_payload p hook; ok (delegated_dto c))
payload_dto _ _ hook = none

unfoldable pub attach_credential_for_payload :
    Value → String → Payload → Extensions → Capabilities → Result Value
unfolding payload_dto
attach_credential_for_payload task hook payload extensions capabilities =
    elim (payload_dto (payload_kind_for_hook hook) payload hook) [
      | none ↦ attach_credential task hook extensions capabilities
      | some made ↦
          if declares cap_read_inbound capabilities
          then (do dto ← made; insert_dto task dto)
          else ok task
    ]
