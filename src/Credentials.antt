-- ===== src/Credentials.antt =====
-- crates/cpex-hosts-python/src/credentials.rs: the credential object that a task may carry, which
-- plugin receives it, and which token is picked.
pub mod Delegated
pub mod Attach
pub mod Redaction
mod Tests
use Prim.Native.Nat.{compare as compare_ℕ, Ordering}
use Prim.Native.String.{◌++◌}
use cpex.Prelude.{
  ℕ, Bool, true, false, ◌&&◌, String, Option, none, some, List, [], ◌∷◌, map, any, find, filter,
  insert, ◌==◌, if◌then◌else◌,
}
use cpex.Prelude.Order.{◌then_with◌, compare_option, compare_list, compare_text, sort_by}
use cpex.Text.{trim, is_empty, eq_ignore_ascii_case}
use cpex.Json.{Value, string, array, object, Fields, end, field, get, put, member, as_str, of_items}
use cpex.HostError.{HostError, protocol, credential}
use cpex.Result.{Result, ok, err, ◌>>=◌, ◌>>◌, ok_or}
use cpex.Ppe
use cpex.Ppe.{
  TokenKind, TokenRole, DelegationMode, TokenSource, RawInboundToken, RawDelegatedToken,
  DelegationKey, RawCredentials, Extensions, IdentityPayload, DelegationPayload,
}
use cpex.Payload.{Payload}
use cpex.Hooks.{PayloadKind, payload_kind_for_hook}
use cpex.CredentialPayloads.Delegation.{texts_json}
use cpex.CredentialPayloads.Identity.{inbound_token, credential_header_name, headers_json}

abbrev pub credential_field : String
credential_field = "credential"

abbrev pub cap_read_inbound : String
cap_read_inbound = "read_inbound_credentials"

abbrev pub cap_read_delegated : String
cap_read_delegated = "read_delegated_tokens"

abbrev pub Capabilities : Type 0
Capabilities = List String

abbrev pub declares : String → Capabilities → Bool
declares cap capabilities = any (λ c. c == cap) capabilities

pub record InboundCredential : Type 0 where
  pub token : String
  pub source_header : String
  pub kind : String
  pub headers : Option Ppe.Headers

pub record DelegatedCredential : Type 0 where
  pub token : String
  pub outbound_header : String
  pub audience : String
  pub scopes : List String

pub record CredentialDto : Type 0 where
  pub inbound : Option InboundCredential
  pub delegated : Option DelegatedCredential

-- What `Debug` prints of a struct: field names with what stands behind them.
pub data Shown : Type 0 where
  redacted : Shown
  absent : Shown
  text : String → Shown
  texts : List String → Shown

abbrev presence {ℓ} : {A : Type ℓ} → Option A → Shown
presence none = absent
presence (some a) = redacted

abbrev names : Option Ppe.Headers → Shown
names none = absent
names (some headers) = texts (map (λ h. h.0) headers)

unfoldable pub debug_dto : CredentialDto → List (String × Shown)
debug_dto d = ("inbound", presence d.inbound) ∷ ("delegated", presence d.delegated) ∷ []

unfoldable pub debug_inbound : InboundCredential → List (String × Shown)
debug_inbound c =
    ("token", redacted)
    ∷ ("source_header", text c.source_header)
    ∷ ("kind", text c.kind)
    ∷ ("header_names", names c.headers)
    ∷ []

unfoldable pub debug_delegated : DelegatedCredential → List (String × Shown)
debug_delegated c =
    ("token", redacted)
    ∷ ("outbound_header", text c.outbound_header)
    ∷ ("audience", text c.audience)
    ∷ ("scopes", texts c.scopes)
    ∷ []

unfoldable pub token_kind_wire_name : TokenKind → String
token_kind_wire_name TokenKind.jwt = "jwt"
token_kind_wire_name TokenKind.opaque = "opaque"
token_kind_wire_name TokenKind.spiffe_jwt = "spiffe_jwt"
token_kind_wire_name TokenKind.ucan = "ucan"
token_kind_wire_name TokenKind.txn_token = "txn_token"
token_kind_wire_name (TokenKind.unlisted name) = "opaque"

unfoldable pub token_source_kind : TokenSource → String
token_source_kind TokenSource.spiffe_jwt_svid = "spiffe_jwt"
token_source_kind (TokenSource.unlisted name) = "opaque"

-- The derived serialization, which leaves absent parts out.
with_headers : Option Ppe.Headers → Fields
with_headers none = end
with_headers (some headers) = field "headers" (headers_json headers) end

unfoldable pub inbound_json : InboundCredential → Value
unfolding with_headers
inbound_json c = object (
    field "token" (string c.token) (
      field "source_header" (string c.source_header)
        (field "kind" (string c.kind) (with_headers c.headers))))

unfoldable pub delegated_json : DelegatedCredential → Value
delegated_json c = object (
    field "token" (string c.token) (
      field "outbound_header" (string c.outbound_header)
        (field "audience" (string c.audience) (field "scopes" (texts_json c.scopes) end))))

with_part {ℓ} : {A : Type ℓ} → String → (A → Value) → Option A → Fields → Fields
with_part key json none fs = fs
with_part key json (some a) fs = field key (json a) fs

unfoldable pub dto_json : CredentialDto → Value
unfolding with_part inbound_json delegated_json
dto_json d = object (
    with_part "inbound" inbound_json d.inbound
      (with_part "delegated" delegated_json d.delegated end))

unfoldable pub insert_dto : Value → CredentialDto → Result Value
insert_dto (object task) dto = ok (object (put credential_field (dto_json dto) task))
insert_dto _ dto = err (protocol "task must be a JSON object to carry a credential")

abbrev pub refusal : String → String → String → HostError
refusal cap hook message =
    credential ("plugin declared '" ++ (cap ++ ("' for hook '" ++ (hook ++ ("' but " ++ message)))))

same_role : TokenRole → TokenRole → Bool
same_role TokenRole.user TokenRole.user = true
same_role TokenRole.client TokenRole.client = true
same_role TokenRole.caller_workload TokenRole.caller_workload = true
same_role (TokenRole.unlisted a) (TokenRole.unlisted b) = a == b
same_role _ _ = false

abbrev Inbound : Type 0
Inbound = List (TokenRole × RawInboundToken)

token_of : TokenRole → Inbound → Option RawInboundToken
unfolding same_role
token_of role [] = none
token_of role ((r, t) ∷ rest) = if same_role r role then some t else token_of role rest

first_of : List TokenRole → Inbound → Option RawInboundToken
unfolding token_of
first_of [] tokens = none
first_of (role ∷ roles) tokens =
    let rest = first_of roles tokens in
    elim (token_of role tokens) [ none ↦ rest | some t ↦ some t ]

any_token : Inbound → Option RawInboundToken
any_token [] = none
any_token ((r, t) ∷ rest) = some t

-- The user's token, else the client's, else a workload's, else any.
unfoldable pub pick_inbound : Inbound → Option RawInboundToken
unfolding first_of any_token
pick_inbound tokens =
    elim (first_of (TokenRole.user ∷ TokenRole.client ∷ TokenRole.caller_workload ∷ []) tokens) [
      | none ↦ any_token tokens
      | some t ↦ some t
    ]

unfoldable pub inbound_from_token : RawInboundToken → String → Result InboundCredential
unfolding trim is_empty token_kind_wire_name
inbound_from_token t hook =
    if is_empty (trim t.token)
    then err (
        credential (
          "the inbound token for hook '"
          ++ (hook
              ++ "' is empty — refusing to send an empty credential (an empty bearer authenticates nowhere, and a plugin may read it as 'no authentication required')")))
    else ok (record {
      token = t.token;
      source_header = t.source_header;
      kind = token_kind_wire_name t.kind;
      headers = some ((t.source_header, t.token) ∷ []);
    })

unfoldable pub build_inbound : Extensions → String → Result InboundCredential
build_inbound extensions hook = do
  raw ← ok_or extensions.raw_credentials (
      refusal cap_read_inbound hook
        "the request carries no raw-credentials extension — refusing to dispatch without the token it asked for")
  token ← ok_or (pick_inbound raw.inbound_tokens) (
      refusal cap_read_inbound hook "no inbound token is present — refusing to dispatch without it")
  inbound_from_token token hook
