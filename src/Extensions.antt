-- ===== src/Extensions.antt =====
-- crates/cpex-hosts-python/src/extensions.rs: the extension slots that a task carries to the worker,
-- and the slots that its answer may change.
pub mod Outbound
pub mod Inbound
mod Tests
use Prim.Native.String.{◌++◌}
use cpex.Prelude.{
  ◌&&◌, Bool, true, false, not, String, Option, none, some, List, [], ◌∷◌, any, filter,
  if◌then◌else◌,
}
use cpex.Text.{eq_ignore_ascii_case}
use cpex.Json.{Value, null, object, Fields, end, field, get, put, member}
use cpex.HostError.{HostError, protocol}
use cpex.Result.{Result, ok, err, ◌>>=◌, Serde, parsed, refused, map_err}
use cpex.Ppe.{
  Headers, Object, HttpExtension, SecurityExtension, DelegationExtension, Slot, Immutable,
  Extensions, OwnedExtensions,
}
use cpex.CredentialPayloads.{credential_headers, is_public_header}

abbrev pub extensions_field : String
extensions_field = "extensions"

abbrev pub modified_extensions_field : String
modified_extensions_field = "modified_extensions"

unfoldable pub is_sensitive : String → Bool
is_sensitive name = any (λ s. eq_ignore_ascii_case name s) credential_headers

unfoldable pub public_http_headers : Headers → Headers
public_http_headers headers = filter (λ h. is_public_header h.0 h.1 none none) headers

unfoldable pub strip_sensitive : Headers → Headers
strip_sensitive headers = filter (λ h. not (is_sensitive h.0)) headers

unfoldable pub sanitize_http : HttpExtension → HttpExtension
sanitize_http http = record http {
  request_headers = public_http_headers http.request_headers;
  response_headers = public_http_headers http.response_headers;
}

-- The worker's headers with the inbound request line, which is blank where there is no inbound value.
unfoldable pub returned_http : HttpExtension → Option HttpExtension → HttpExtension
returned_http returned none = record {
  request_headers = strip_sensitive returned.request_headers;
  secret_headers = [];
  response_headers = strip_sensitive returned.response_headers;
  status = none;
  method = none;
  path = none;
  host = none;
  scheme = none;
}
returned_http returned (some inbound) = record inbound {
  request_headers = strip_sensitive returned.request_headers;
  response_headers = strip_sensitive returned.response_headers;
}

-- The serializer at the types of the slots, and what PPE implements: the copy that its merge starts
-- from, the append-only check of delegation chains, and the adding of a label.
pub record Core : Type 0 where
  pub http_json : HttpExtension → Serde Value
  pub security_json : SecurityExtension → Serde Value
  pub delegation_json : DelegationExtension → Serde Value
  pub custom_json : Object → Serde Value
  pub http_of : Value → Serde HttpExtension
  pub security_of : Value → Serde SecurityExtension
  pub delegation_of : Value → Serde DelegationExtension
  pub custom_of : Value → Serde Object
  pub cow_copy : Extensions → OwnedExtensions
  pub chain_extends : List Value → List Value → Bool
  pub add_label : SecurityExtension → String → SecurityExtension
  pub default_security : SecurityExtension

-- `put(key, value)` of `to_wire`, for a slot that is there.
put_slot : String → Option (Serde Value) → Fields → Result Fields
put_slot key none map = ok map
put_slot key (some value) map = do
  v ← map_err value (λ e.
      protocol ("could not serialize the '" ++ (key ++ ("' extension for the worker: " ++ e))))
  ok (put key v map)

abbrev slot_json : Option Slot → Option (Serde Value)
slot_json none = none
slot_json (some s) = some s.json

abbrev json_by {ℓ} : {A : Type ℓ} → (A → Serde Value) → Option A → Option (Serde Value)
json_by json none = none
json_by json (some a) = some (json a)

-- The slots in the order in which they are written.
abbrev pub wire_slots : Core → Extensions → List (String × Option (Serde Value))
wire_slots core x =
    ("request", slot_json x.request)
    ∷ ("agent", slot_json x.agent)
    ∷ ("http", json_by (λ h. core.http_json (sanitize_http h)) x.http)
    ∷ ("security", json_by core.security_json x.security)
    ∷ ("delegation", json_by core.delegation_json x.delegation)
    ∷ ("mcp", slot_json x.mcp)
    ∷ ("completion", slot_json x.completion)
    ∷ ("provenance", slot_json x.provenance)
    ∷ ("llm", slot_json x.llm)
    ∷ ("framework", slot_json x.framework)
    ∷ ("meta", slot_json x.meta)
    ∷ ("custom", json_by core.custom_json x.custom)
    ∷ []

put_slots : List (String × Option (Serde Value)) → Fields → Result Fields
put_slots [] map = ok map
put_slots ((key, value) ∷ rest) map = do next ← put_slot key value map; put_slots rest next

unfoldable pub to_wire : Core → Extensions → Result Fields
unfolding put_slots put_slot
to_wire core x = put_slots (wire_slots core x) end

insert_wire : Value → Fields → Result Value
insert_wire task end = ok task
insert_wire (object task) wire = ok (object (put extensions_field (object wire) task))
insert_wire _ wire = err (protocol "task must be a JSON object to carry extensions")

unfoldable pub attach_extensions : Core → Value → Extensions → Result Value
unfolding insert_wire
attach_extensions core task x = do wire ← to_wire core x; insert_wire task wire

abbrev some_of {ℓ} : {T : Type ℓ} → Serde T → Serde (Option T)
some_of (parsed t) = parsed (some t)
some_of (refused e) = refused e

read_slot {ℓ} : {T : Type ℓ} → (Value → Serde T) → String → Option Value → Result (Option T)
read_slot parse key none = ok none
read_slot parse key (some null) = ok none
read_slot parse key (some v) = map_err (some_of (parse v)) (λ e.
    protocol
      ("could not deserialize the '" ++ (key ++ ("' extension returned by the worker: " ++ e))))

-- A slot of the answer: unset and `null` are no value.
unfoldable pub slot {ℓ} : {T : Type ℓ} → (Value → Serde T) → Fields → String → Result (Option T)
unfolding read_slot
slot parse fields key = read_slot parse key (get key fields)

-- The copy with what was taken from the answer so far, and whether anything was.
pub record Draft : Type 0 where
  pub owned : OwnedExtensions
  pub applied : Bool

take_http : Extensions → Option HttpExtension → Draft → Draft
take_http inbound none d = d
take_http inbound (some http) d =
    if inbound.http_write_token
    then record {
      owned = record d.owned { http = some (returned_http http inbound.http) };
      applied = true;
    }
    else d

add_labels : Core → SecurityExtension → List String → SecurityExtension
add_labels core s [] = s
add_labels core s (label ∷ labels) = add_labels core (core.add_label s label) labels

abbrev pub or_default {ℓ} : {A : Type ℓ} → A → Option A → A
or_default a none = a
or_default a (some b) = b

take_security : Core → Extensions → Option SecurityExtension → Draft → Draft
take_security core inbound none d = d
take_security core inbound (some security) d =
    if inbound.labels_write_token
    then record {
      owned = record d.owned {
        security =
            some
              (add_labels core (or_default core.default_security inbound.security) security.labels);
      };
      applied = true;
    }
    else d

abbrev pub chain_of : Option DelegationExtension → List Value
chain_of none = []
chain_of (some d) = d.chain

take_delegation : Core → Extensions → Option DelegationExtension → Draft → Draft
take_delegation core inbound none d = d
take_delegation core inbound (some delegation) d =
    if inbound.delegation_write_token
      && core.chain_extends (chain_of inbound.delegation) delegation.chain
    then record { owned = record d.owned { delegation = some delegation }; applied = true }
    else d

take_custom : Option Object → Draft → Draft
take_custom none d = d
take_custom (some custom) d = record {
  owned = record d.owned { custom = some custom };
  applied = true;
}

abbrev finish : Draft → Option OwnedExtensions
finish d = if d.applied then some d.owned else none

take_slots : Core → Fields → Extensions → Result (Option OwnedExtensions)
take_slots core fields inbound = do
  http ← slot core.http_of fields "http"
  security ← slot core.security_of fields "security"
  delegation ← slot core.delegation_of fields "delegation"
  custom ← slot core.custom_of fields "custom"
  ok (
      finish (
        take_custom custom (
          take_delegation core inbound delegation (
            take_security core inbound security (
              take_http inbound http
                (record { owned = core.cow_copy inbound; applied = false }))))))

unfoldable pub owned_from_returned_slot :
    Core → Value → Extensions → Result (Option OwnedExtensions)
unfolding take_slots take_http take_security take_delegation take_custom add_labels
owned_from_returned_slot core null inbound = ok none
owned_from_returned_slot core (object fields) inbound = take_slots core fields inbound
owned_from_returned_slot core _ inbound =
    err (protocol "the worker returned a 'modified_extensions' field that is not a JSON object")

parse_member : Core → Option Value → Extensions → Result (Option OwnedExtensions)
parse_member core none inbound = ok none
parse_member core (some v) inbound = owned_from_returned_slot core v inbound

unfoldable pub parse_returned_extensions :
    Core → Value → Extensions → Result (Option OwnedExtensions)
unfolding parse_member
parse_returned_extensions core response inbound =
    parse_member core (member modified_extensions_field response) inbound
