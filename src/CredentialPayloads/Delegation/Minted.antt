-- ===== src/CredentialPayloads/Delegation/Minted.antt =====
-- What a worker's answer to `token.delegate` can do to the payload.
use cpex.Prelude.{ℕ, suc, ◌≡◌, String, some, true, false, ◌⊎◌}
use cpex.Text.{is_empty, trim}
use cpex.HostError.{HostError}
use cpex.Json.{pos, Value, Fields, string, end, field, get}
use cpex.Result.{ok}
use cpex.Ppe.{DelegationPayload, RawDelegatedToken}
use cpex.CredentialPayloads.Delegation.{
  DelegationEnv, forwarded_headers, outbound_header, carries, audience_of,
}

-- The header of a minted token: the default one where none is forwarded, else the single one
-- forwarded, whose value is the token, with or without `Bearer`.
abbrev pub HeaderFor : String → Fields → String → Type 0
HeaderFor token forwarded name =
    ((forwarded ≡ end) × (name ≡ "Authorization"))
    ⊎ ((v : Value) × (forwarded ≡ field name v end) × (carries token v ≡ true))

-- A token minted for the delegation asked for.
pub record IsMinted (env : DelegationEnv) (o : DelegationPayload) (fields : Fields)
    (t : RawDelegatedToken) : Type 0 where
  pub given : get "delegated_token" fields ≡ some (string t.token)
  pub nonblank : is_empty (trim t.token) ≡ false
  pub audience : t.audience ≡ audience_of o
  pub scopes : t.scopes ≡ o.required_permissions
  pub header :
      (forwarded : Fields) × (forwarded_headers (get "forwarded_headers" fields) ≡ ok forwarded)
      × HeaderFor t.token forwarded t.outbound_header
  pub expires : (secs : ℕ) × (env.expiry env.now (pos (suc secs)) ≡ some t.expires_at)

-- The request that the payload carries, which a plugin may read and not write.
pub record SameRequest (o p : DelegationPayload) : Type 0 where
  pub bearer_token : p.bearer_token ≡ o.bearer_token
  pub subject : p.subject ≡ o.subject
  pub target_audience : p.target_audience ≡ o.target_audience
  pub target_name : p.target_name ≡ o.target_name
  pub required_permissions : p.required_permissions ≡ o.required_permissions
  pub actor_role : p.actor_role ≡ o.actor_role
  pub actor_token : p.actor_token ≡ o.actor_token
  pub target_type : p.target_type ≡ o.target_type
  pub trust_domain : p.trust_domain ≡ o.trust_domain
  pub auth_enforced_by : p.auth_enforced_by ≡ o.auth_enforced_by
  pub route_attenuation : p.route_attenuation ≡ o.route_attenuation

abbrev pub Delegates : DelegationEnv → DelegationPayload → Fields → DelegationPayload → Type 0
Delegates env o fields p =
    SameRequest o p
    × ((p.delegated_token ≡ o.delegated_token)
        ⊎ ((t : RawDelegatedToken) × (p.delegated_token ≡ some t) × IsMinted env o fields t))
