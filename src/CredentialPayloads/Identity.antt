-- ===== src/CredentialPayloads/Identity.antt =====
-- `identity.resolve` in crates/cpex-hosts-python/src/credential_payloads.rs: where the inbound token
-- is found, the public JSON for the worker, and the worker's answer.
pub mod Public
pub mod Answer
pub mod Token
use Prim.Native.String.{◌++◌}
use cpex.Prelude.{
  ℕ, Bool, true, false, ◌||◌, not, String, Option, none, some, List, [], ◌∷◌, any, filter, insert,
  ◌==◌, if◌then◌else◌,
}
use cpex.Text.{trim, is_empty}
use cpex.Json.{
  ℤ, pos, Number, integer, Value, null, bool, number, string, object, Fields, end, field, get, put,
  delete, entries, of_entries, as_i64, map_values,
}
use cpex.HostError.{HostError, protocol}
use cpex.Result.{Result, ok, err, ◌>>=◌, ◌>>◌, Serde, map_err, ok_or}
use cpex.Ppe.{
  Headers, Object, TokenSource, IdentityPayload, PluginViolation, DelegationExtension,
  hook_identity_resolve,
}
use cpex.CredentialPayloads.{
  default_credential_header, header_entry, strip_bearer, is_public_header, check_keys, fault,
  as_fields, parse_lossless,
}

abbrev or_default : Option String → String
or_default none = default_credential_header
or_default (some header) = header

unfoldable pub nonblank : String → Option String
nonblank token = if is_empty token then none else some token

-- `raw_token` if it is not blank, else what its header carries.
unfoldable pub inbound_token : IdentityPayload → Option String
inbound_token p =
    if not (is_empty (trim p.raw_token))
    then some p.raw_token
    else elim (header_entry p.headers (or_default p.source_header)) [
      | none ↦ none
      | some h ↦ nonblank (trim (strip_bearer h.1))
    ]

unfoldable pub credential_header_name : IdentityPayload → String
unfolding header_entry
credential_header_name p = elim (header_entry p.headers (or_default p.source_header)) [
  | none ↦ or_default p.source_header
  | some h ↦ h.0
]

unfoldable pub public_headers : IdentityPayload → Headers
unfolding is_public_header inbound_token
public_headers p =
    filter (λ h. is_public_header h.0 h.1 (some (or_default p.source_header)) (inbound_token p))
      p.headers

abbrev pub headers_json : Headers → Value
headers_json headers = object (of_entries (map_values string headers))

with_host : Option String → Fields → Fields
unfolding put
with_host none fs = fs
with_host (some host) fs = put "client_host" (string host) fs

with_port : Option ℕ → Fields → Fields
unfolding put
with_port none fs = fs
with_port (some port) fs = put "client_port" (number (integer (pos port))) fs

-- `source_json` is the serializer at `TokenSource`.
unfoldable pub identity_to_worker : (TokenSource → Serde Value) → IdentityPayload → Result Value
unfolding public_headers with_host with_port
identity_to_worker source_json p = do
  source ←
      map_err (source_json p.source)
        (λ e. protocol ("could not serialize the identity payload's source: " ++ e))
  ok (
      object (
        with_port p.client_port (
          with_host p.client_host (
            field "raw_token" (string "")
              (field "source" source (field "headers" (headers_json (public_headers p)) end))))))

pub data IdentityOutcome : Type 0 where
  resolved : IdentityPayload → IdentityOutcome
  rejected : PluginViolation → IdentityOutcome

abbrev pub identity_input_fields : List String
identity_input_fields = "raw_token" ∷ "source" ∷ "headers" ∷ "client_host" ∷ "client_port" ∷ []

abbrev pub identity_result_fields : List String
identity_result_fields =
    "subject" ∷ "delegation" ∷ "raw_claims" ∷ "rejected" ∷ "reject_status" ∷ "reject_reason" ∷ []

abbrev pub is_known : String → Bool
is_known key =
    any (λ k. k == key) identity_result_fields || any (λ k. k == key) identity_input_fields

unfoldable pub reject_reason : Option Value → Result String
reject_reason none = ok ""
reject_reason (some null) = ok ""
reject_reason (some (string reason)) = ok reason
reject_reason (some _) = err (fault hook_identity_resolve "`reject_reason` must be a string")

abbrev new_violation : String → String → PluginViolation
new_violation code reason = record {
  code = code;
  reason = reason;
  description = none;
  details = [];
  proto_error_code = none;
}

with_status : PluginViolation → Option Value → Result PluginViolation
unfolding as_i64 insert
with_status v none = ok v
with_status v (some null) = ok v
with_status v (some status) = do
  code ← ok_or (as_i64 status) (fault hook_identity_resolve "`reject_status` must be an integer")
  ok (record v {
    proto_error_code = some code;
    details = insert "reject_status" (number (integer code)) v.details;
  })

unfoldable pub rejection : Fields → Result PluginViolation
unfolding reject_reason with_status get is_empty
rejection fields = do
  reason ← reject_reason (get "reject_reason" fields)
  with_status
      (new_violation "auth.rejected"
        (if is_empty reason then "the identity plugin rejected the credential" else reason))
      (get "reject_status" fields)

-- The Python model's `type` under the name that PPE reads, if that name is free.
rename_type : Fields → Option Value → Option Value → Fields
unfolding put delete
rename_type fs none (some kind) = put "subject_type" kind (delete "type" fs)
rename_type fs _ _ = fs

unfoldable pub python_subject : Value → Value
unfolding rename_type get
python_subject (object fs) = object (rename_type fs (get "subject_type" fs) (get "type" fs))
python_subject v = v

insert_all : Fields → Object → Object
unfolding insert
insert_all end claims = claims
insert_all (field name value rest) claims = insert_all rest (insert name value claims)

-- The serializer's functions at `SubjectExtension` and `DelegationExtension`.
pub record IdentitySerde : Type 0 where
  pub subject_of : Value → Serde Value
  pub subject_json : Value → Serde Value
  pub delegation_of : Value → Serde DelegationExtension
  pub delegation_json : DelegationExtension → Serde Value

module _ (s : IdentitySerde) where
  with_subject : IdentityPayload → Option Value → Result IdentityPayload
  with_subject p none = ok p
  with_subject p (some null) = ok p
  with_subject p (some v) = do
    subject ←
        parse_lossless s.subject_of s.subject_json hook_identity_resolve "subject"
          (python_subject v)
    ok (record p { subject = some subject })

  with_delegation : IdentityPayload → Option Value → Result IdentityPayload
  with_delegation p none = ok p
  with_delegation p (some null) = ok p
  with_delegation p (some v) = do
    delegation ←
        parse_lossless s.delegation_of s.delegation_json hook_identity_resolve "delegation" v
    ok (record p { delegation = some delegation })

  with_claims : IdentityPayload → Option Value → Result IdentityPayload
  with_claims p none = ok p
  with_claims p (some null) = ok p
  with_claims p (some (object claims)) =
      ok (record p { raw_claims = insert_all claims p.raw_claims })
  with_claims p (some _) = err (fault hook_identity_resolve "`raw_claims` must be an object")

  resolve_fields : IdentityPayload → Fields → Result IdentityOutcome
  resolve_fields original fields = do
    p ← with_subject original (get "subject" fields)
    q ← with_delegation p (get "delegation" fields)
    r ← with_claims q (get "raw_claims" fields)
    ok (resolved r)

  decide_identity : IdentityPayload → Fields → Option Value → Result IdentityOutcome
  decide_identity original fields none = resolve_fields original fields
  decide_identity original fields (some null) = resolve_fields original fields
  decide_identity original fields (some (bool false)) = resolve_fields original fields
  decide_identity original fields (some (bool true)) = do
    violation ← rejection fields
    ok (rejected violation)
  decide_identity original fields (some _) =
      err (fault hook_identity_resolve "`rejected` must be a boolean")

  unfoldable pub identity_from_worker : IdentityPayload → Value → Result IdentityOutcome
  unfolding decide_identity resolve_fields rejection with_subject with_delegation with_claims
      parse_lossless python_subject insert_all check_keys as_fields get
  identity_from_worker original modified = do
    fields ← as_fields hook_identity_resolve modified
    check_keys hook_identity_resolve is_known fields
    decide_identity original fields (get "rejected" fields)
