-- ===== src/CredentialPayloads/Delegation.antt =====
-- `token.delegate` in crates/cpex-hosts-python/src/credential_payloads.rs: the public JSON for the
-- worker, and the minted token that the worker returns.
pub mod Request
pub mod Minted
use Prim.Native.String.{◌++◌}
use cpex.Prelude.{
  ℕ, zero, suc, Bool, true, false, ◌&&◌, ◌||◌, not, String, Option, none, some, List, [], ◌∷◌, any,
  map, eqb, ltb, ◌==◌, if◌then◌else◌,
}
use cpex.Text.{trim, is_empty}
use cpex.Json.{
  ℤ, pos, negsuc, Value, null, string, array, object, Fields, end, field, get, put, entries,
  of_items, as_i64, Items, nil,
}
use cpex.HostError.{HostError}
use cpex.Result.{Result, ok, err, ◌>>=◌, ◌>>◌, Serde, ok_or}
use cpex.Ppe.{
  TokenRole, DelegationMode, DelegationSubject, DelegationPayload, DelegationExtension,
  RawDelegatedToken, hook_token_delegate,
}
use cpex.CredentialPayloads.{strip_bearer, check_keys, fault, as_fields, parse_lossless, to_json}

abbrev pub has_actor : DelegationPayload → Bool
has_actor p = is_there p.actor_role || not (is_empty p.actor_token)
  where
    is_there : Option TokenRole → Bool
    is_there none = false
    is_there (some role) = true

abbrev pub is_user : DelegationSubject → Bool
is_user DelegationSubject.user = true
is_user (DelegationSubject.unlisted name) = false

abbrev actor_message : String
actor_message =
    "the delegation carries an RFC 8693 actor, which the Python DelegationPayload cannot carry; a token minted without it would lose its `act` attribution"

abbrev subject_message : String
subject_message =
    "the delegation is for a subject other than `user`, and the Python DelegationPayload reads its bearer token as the user's; a plugin would attribute the minted token to the wrong principal"

with_text : String → Option String → Fields → Fields
unfolding put
with_text key none fs = fs
with_text key (some s) fs = put key (string s) fs

with_attenuation : Option (Serde Value) → Fields → Result Fields
unfolding put
with_attenuation none fs = ok fs
with_attenuation (some s) fs = do v ← to_json s; ok (put "route_attenuation" v fs)

abbrev pub texts_json : List String → Value
texts_json ss = array (of_items (map string ss))

public_fields : DelegationPayload → Result Value
unfolding with_text with_attenuation
public_fields p = do
  target_type ← to_json p.target_type
  enforced ← to_json p.auth_enforced_by
  fields ← with_attenuation p.route_attenuation (
      with_text "trust_domain" p.trust_domain (
        with_text "target_audience" p.target_audience (
          field "target_name" (string p.target_name) (
            field "target_type" target_type (
              field "required_permissions" (texts_json p.required_permissions)
                (field "auth_enforced_by" enforced end))))))
  ok (object fields)

unfoldable pub delegation_to_worker : DelegationPayload → Result Value
unfolding public_fields is_empty
delegation_to_worker p =
    if has_actor p
    then err (fault hook_token_delegate actor_message)
    else if not (is_user p.subject)
    then err (fault hook_token_delegate subject_message)
    else public_fields p

abbrev pub delegation_input_fields : List String
delegation_input_fields =
    "target_name" ∷ "target_type" ∷ "target_audience" ∷ "required_permissions" ∷ "trust_domain"
    ∷ "auth_enforced_by" ∷ "route_attenuation" ∷ "bearer_token" ∷ []

abbrev pub delegation_result_fields : List String
delegation_result_fields =
    "delegated_token" ∷ "delegation_update" ∷ "forwarded_headers" ∷ "cache_key" ∷ "cache_ttl" ∷ []

abbrev pub is_known : String → Bool
is_known key =
    any (λ k. k == key) delegation_result_fields || any (λ k. k == key) delegation_input_fields

unfoldable pub returned_token : Option Value → Result (Option String)
unfolding trim is_empty
returned_token none = ok none
returned_token (some null) = ok none
returned_token (some (string token)) =
    if not (is_empty (trim token))
    then ok (some token)
    else err (fault hook_token_delegate "the plugin returned an empty `delegated_token`")
returned_token (some _) = err (fault hook_token_delegate "`delegated_token` must be a string")

unfoldable pub forwarded_headers : Option Value → Result Fields
forwarded_headers none = ok end
forwarded_headers (some null) = ok end
forwarded_headers (some (object headers)) = ok headers
forwarded_headers (some _) = err (fault hook_token_delegate "`forwarded_headers` must be an object")

abbrev pub carries : String → Value → Bool
carries token (string v) = v == token || strip_bearer v == token
carries token _ = false

abbrev extra_headers_message : String
extra_headers_message =
    "the plugin returned `forwarded_headers` other than the single header carrying the minted token, and a PPE delegation payload cannot carry extra headers"

abbrev is_last : Fields → Bool
is_last end = true
is_last (field k v fs) = false

unfoldable pub outbound_header : String → Fields → Result String
outbound_header token end = ok "Authorization"
outbound_header token (field name value rest) =
    if not (is_last rest) || not (carries token value)
    then err (fault hook_token_delegate extra_headers_message)
    else ok name

abbrev pub positive : ℤ → Option ℤ
positive (pos zero) = none
positive (pos (suc n)) = some (pos (suc n))
positive (negsuc n) = none

abbrev pub and_positive : Option ℤ → Option ℤ
and_positive none = none
and_positive (some z) = positive z

abbrev pub default_ttl_secs : ℤ
default_ttl_secs = pos 60

unfoldable pub cache_ttl : Option Value → Result ℤ
unfolding as_i64
cache_ttl none = ok default_ttl_secs
cache_ttl (some null) = ok default_ttl_secs
cache_ttl (some v) =
    ok_or (and_positive (as_i64 v))
      (fault hook_token_delegate "`cache_ttl` must be a positive integer")

abbrev pub audience_of : DelegationPayload → String
audience_of p = elim p.target_audience [ none ↦ p.target_name | some audience ↦ audience ]

abbrev is_none {ℓ} : {A : Type ℓ} → Option A → Bool
is_none none = true
is_none (some a) = false

abbrev pub is_default_delegation : DelegationExtension → Bool
is_default_delegation u =
    no_hops u.chain
    && eqb u.depth 0
    && is_none u.origin_subject_id
    && is_none u.actor_subject_id
    && not u.delegated
  where
    no_hops : List Value → Bool
    no_hops [] = true
    no_hops (hop ∷ hops) = false

-- `now` is the clock's reading, `expiry` adds seconds to it unless the sum is out of range,
-- `default_mode` is PPE's mode of a subject, the rest the serializer at `DelegationExtension`.
pub record DelegationEnv : Type 0 where
  pub now : ℤ
  pub expiry : ℤ → ℤ → Option ℤ
  pub default_mode : DelegationSubject → DelegationMode
  pub update_of : Value → Serde DelegationExtension
  pub update_json : DelegationExtension → Serde Value

abbrev pub minted_token : DelegationPayload → String → String → ℤ → RawDelegatedToken
minted_token p token header expires_at = record {
  token = token;
  outbound_header = header;
  audience = audience_of p;
  scopes = p.required_permissions;
  expires_at = expires_at;
}

module _ (env : DelegationEnv) where
  abbrev pub minted : DelegationPayload → String → String → ℤ → DelegationPayload
  minted p token header expires_at = record p {
    delegated_token = some (minted_token p token header expires_at);
    delegation_mode = some (env.default_mode p.subject);
    minted_at = some env.now;
  }

  mint : DelegationPayload → Fields → Fields → String → Result DelegationPayload
  mint p fields forwarded token = do
    header ← outbound_header token forwarded
    ttl ← cache_ttl (get "cache_ttl" fields)
    expires_at ←
        ok_or (env.expiry env.now ttl) (fault hook_token_delegate "`cache_ttl` is out of range")
    ok (minted p token header expires_at)

  with_token : DelegationPayload → Fields → Fields → Option String → Result DelegationPayload
  with_token p fields forwarded (some token) = mint p fields forwarded token
  with_token p fields forwarded none =
      if is_last forwarded
      then ok p
      else err (
          fault hook_token_delegate
            "the plugin returned `forwarded_headers` with no `delegated_token`, and a PPE delegation payload carries headers only as the minted token's outbound header")

  with_update : DelegationPayload → Option Value → Result DelegationPayload
  with_update p none = ok p
  with_update p (some null) = ok p
  with_update p (some v) = do
    update ← parse_lossless env.update_of env.update_json hook_token_delegate "delegation_update" v
    ok (if is_default_delegation update then p else record p { delegation_update = some update })

  unfoldable pub delegation_from_worker : DelegationPayload → Value → Result DelegationPayload
  unfolding with_token mint with_update outbound_header cache_ttl parse_lossless returned_token
      forwarded_headers check_keys as_fields get
  delegation_from_worker original modified = do
    fields ← as_fields hook_token_delegate modified
    check_keys hook_token_delegate is_known fields
    token ← returned_token (get "delegated_token" fields)
    forwarded ← forwarded_headers (get "forwarded_headers" fields)
    p ← with_token original fields forwarded token
    with_update p (get "delegation_update" fields)
