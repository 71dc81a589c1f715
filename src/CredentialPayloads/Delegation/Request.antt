-- ===== src/CredentialPayloads/Delegation/Request.antt =====
-- What of a delegation payload reaches the worker in public.
use cpex.Prelude.{◌≡◌, String, none, arith, true}
use cpex.Text.{is_empty}
use cpex.Json.{Value}
use cpex.Result.{ok}
use cpex.Ppe.{DelegationPayload, DelegationSubject}
use cpex.CredentialPayloads.Delegation.{delegation_to_worker}

-- A delegation that is sent has no actor and is for the user, and the JSON that is sent is the
-- same whatever the bearer token is.
pub delegation_to_worker-public :
    (p : DelegationPayload) (v : Value) (other : String)
    → delegation_to_worker p ≡ ok v
    → (p.actor_role ≡ none)
      × (is_empty p.actor_token ≡ true)
      × (p.subject ≡ DelegationSubject.user)
      × (delegation_to_worker (record p { bearer_token = other }) ≡ ok v)
unfolding delegation_to_worker
delegation_to_worker-public p v other h = (ground arith, ground arith, ground arith, h)
