-- ===== src/Credentials/Redaction.antt =====
-- What diagnostics of crates/cpex-hosts-python/src/credentials.rs can show of a credential.
use cpex.Prelude.{◌≡◌, refl, String, some, map, arith}
use cpex.HostError.{HostError}
use cpex.Result.{err}
use cpex.Ppe
use cpex.Ppe.{IdentityPayload, DelegationPayload, RawInboundToken, RawDelegatedToken}
use cpex.Credentials.{
  InboundCredential, DelegatedCredential, debug_inbound, debug_delegated, inbound_from_token,
}
use cpex.Credentials.Delegated.{delegated_from_token}
use cpex.Credentials.Attach.{inbound_from_identity, delegated_from_payload}

-- The `Debug` text of a credential does not depend on the token, nor on the values of the headers.
pub debug_blind :
    (c : InboundCredential) (d : DelegatedCredential) (token : String)
    (headers headers' : Ppe.Headers)
    → map (λ h. h.0) headers ≡ map (λ h. h.0) headers'
    → (debug_inbound (record c { headers = some headers })
        ≡ debug_inbound (record c { token = token; headers = some headers' }))
      × (debug_delegated d ≡ debug_delegated (record d { token = token }))
unfolding debug_inbound debug_delegated
debug_blind c d token headers headers' same = (rw same, refl)

-- Whatever the tokens and payloads, a refused credential gives an error that depends on the hook
-- alone: each of the four builders has one error for a hook.
pub errors_blind :
    (hook : String) (p p' : IdentityPayload) (q q' : DelegationPayload) (t t' : RawInboundToken)
    (u u' : RawDelegatedToken) (e e' : HostError)
    → (inbound_from_identity p hook ≡ err e → inbound_from_identity p' hook ≡ err e' → e ≡ e')
      × (delegated_from_payload q hook ≡ err e → delegated_from_payload q' hook ≡ err e' → e ≡ e')
      × (inbound_from_token t hook ≡ err e → inbound_from_token t' hook ≡ err e' → e ≡ e')
      × (delegated_from_token u hook ≡ err e → delegated_from_token u' hook ≡ err e' → e ≡ e')
unfolding inbound_from_identity delegated_from_payload inbound_from_token delegated_from_token
errors_blind hook p p' q q' t t' u u' e e' =
    (λ a b. ground arith, λ a b. ground arith, λ a b. ground arith, λ a b. ground arith)
