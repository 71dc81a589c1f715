-- ===== src/CredentialPayloads/Tests.antt =====
-- Credential payloads on concrete values.
use cpex.Prelude.{◌≡◌, refl, ◌↔◌, true, Option, none, some, [], ◌∷◌, All}
use cpex.Text.{is_empty}
use cpex.Json.{
  Value, string, array, object, nil, cons, Fields, end, field, get, put, entries, ℤ, pos,
}
use cpex.Result.{ok, Serde, parsed, refused}
use cpex.Ppe.{
  TokenSource, IdentityPayload, DelegationPayload, DelegationSubject, DelegationMode,
  DelegationExtension,
}
use cpex.CredentialPayloads.{first_dropped, parse_lossless, is_unset}
use cpex.CredentialPayloads.Keys.{IsHeld}
use cpex.CredentialPayloads.Lossless.{Lost, first_dropped-eq-none_iff, parse_lossless_sound}
use cpex.CredentialPayloads.Identity
use cpex.CredentialPayloads.Identity.{
  IdentitySerde, IdentityOutcome, resolved, rejected, identity_to_worker, identity_from_worker,
  inbound_token,
}
use cpex.CredentialPayloads.Identity.Public.{identity_to_worker-public}
use cpex.CredentialPayloads.Identity.Answer.{Answers, identity_from_worker-Answers}
use cpex.CredentialPayloads.Delegation
use cpex.CredentialPayloads.Delegation.{DelegationEnv, delegation_to_worker}
use cpex.CredentialPayloads.Delegation.Request.{delegation_to_worker-public}

abbrev nested : Value
nested = object (field "a" (array (cons (string "x") nil)) end)

first_dropped-eq-none_iff_example :
    (first_dropped nested nested "subject" ≡ none) ↔ (¬ Lost nested nested)
first_dropped-eq-none_iff_example = first_dropped-eq-none_iff nested nested "subject"

abbrev keep : Value → Serde Value
keep v = parsed v

read_back : parse_lossless keep keep "identity.resolve" "subject" nested ≡ ok nested
unfolding parse_lossless is_unset get
read_back = refl

parse_lossless_sound_example :
    (back : Value) × (keep nested ≡ parsed nested)
    × (keep nested ≡ parsed back)
    × (¬ Lost nested back)
parse_lossless_sound_example =
    parse_lossless_sound keep keep "identity.resolve" "subject" nested nested read_back

abbrev source_json : TokenSource → Serde Value
source_json source = parsed (string "spiffe")

abbrev caller : IdentityPayload
caller = record {
  raw_token = "secret";
  source = TokenSource.spiffe_jwt_svid;
  source_header = none;
  headers = ("Accept", "json") ∷ [];
  client_host = some "host";
  client_port = none;
  subject = none;
  delegation = none;
  raw_claims = [];
}

abbrev other_caller : IdentityPayload
other_caller = record caller {
  raw_token = "other";
  headers = ("Authorization", "Bearer other") ∷ [];
}

identity_to_worker-public_example :
    identity_to_worker source_json caller ≡ identity_to_worker source_json other_caller
identity_to_worker-public_example =
    identity_to_worker-public source_json caller other_caller refl refl refl

abbrev delegation_of : Value → Serde DelegationExtension
delegation_of v = refused "no delegation"

abbrev delegation_json : DelegationExtension → Serde Value
delegation_json d = refused "no delegation"

abbrev serde : IdentitySerde
serde = record {
  subject_of = keep;
  subject_json = keep;
  delegation_of = delegation_of;
  delegation_json = delegation_json;
}

abbrev answer : Fields
answer =
    field "raw_token" (string "forged")
      (field "subject" (object (field "id" (string "ann") end)) end)

abbrev ann : IdentityPayload
ann = record caller { subject = some (object (field "id" (string "ann") end)) }

answered : identity_from_worker serde caller (object answer) ≡ ok (resolved ann)
unfolding identity_from_worker is_unset
answered = refl

identity_from_worker-Answers_example :
    (fields : Fields) × (object answer ≡ object fields)
    × All (IsHeld Identity.is_known) (entries fields)
    × Answers caller (get "rejected" fields) (resolved ann)
identity_from_worker-Answers_example =
    identity_from_worker-Answers serde caller (object answer) (resolved ann) answered

abbrev request : DelegationPayload
request = record {
  bearer_token = "secret";
  subject = DelegationSubject.user;
  actor_role = none;
  actor_token = "";
  target_name = "tool";
  target_type = parsed (string "tool");
  target_audience = some "api";
  required_permissions = "read" ∷ [];
  trust_domain = none;
  auth_enforced_by = parsed (string "caller");
  route_attenuation = none;
  delegated_token = none;
  delegation_mode = none;
  minted_at = none;
  delegation_update = none;
}

abbrev request_json : Value
request_json = object (
    field "target_name" (string "tool") (
      field "target_type" (string "tool") (
        field "required_permissions" (array (cons (string "read") nil)) (
          field "auth_enforced_by" (string "caller")
            (field "target_audience" (string "api") end)))))

sent : delegation_to_worker request ≡ ok request_json
unfolding delegation_to_worker put
sent = refl

delegation_to_worker-public_example :
    (request.actor_role ≡ none)
    × (is_empty request.actor_token ≡ true)
    × (request.subject ≡ DelegationSubject.user)
    × (delegation_to_worker (record request { bearer_token = "other" }) ≡ ok request_json)
delegation_to_worker-public_example = delegation_to_worker-public request request_json "other" sent

abbrev expiry : ℤ → ℤ → Option ℤ
expiry now secs = some secs

abbrev env : DelegationEnv
env = record {
  now = pos 0;
  expiry = expiry;
  default_mode = λ s. DelegationMode.on_behalf_of_user;
  update_of = delegation_of;
  update_json = delegation_json;
}

abbrev minted_answer : Fields
minted_answer = field "delegated_token" (string "new") end

abbrev minted_payload : DelegationPayload
minted_payload = record request {
  delegated_token = some (record {
    token = "new";
    outbound_header = "Authorization";
    audience = "api";
    scopes = "read" ∷ [];
    expires_at = pos 60;
  });
  delegation_mode = some DelegationMode.on_behalf_of_user;
  minted_at = some (pos 0);
}
