-- ===== src/CredentialPayloads/Identity/Public.antt =====
-- What of an identity payload reaches the worker in public.
use cpex.Prelude.{◌≡◌, some, []}
use cpex.Json.{Value}
use cpex.Result.{Serde}
use cpex.Ppe.{TokenSource, IdentityPayload}
use cpex.CredentialPayloads.Headers.{filter_none_public}
use cpex.CredentialPayloads.Identity.{identity_to_worker, public_headers, or_default, inbound_token}

public_headers-nil : (p : IdentityPayload) → public_headers p ≡ []
unfolding public_headers
public_headers-nil p =
    filter_none_public p.headers (some (or_default p.source_header)) (inbound_token p)

-- Two identity payloads with the same source, client host and client port have the same public
-- JSON: no token, header name or header value has any part in it.
pub identity_to_worker-public :
    (source_json : TokenSource → Serde Value) (p q : IdentityPayload)
    → p.source ≡ q.source
    → p.client_host ≡ q.client_host
    → p.client_port ≡ q.client_port
    → identity_to_worker source_json p ≡ identity_to_worker source_json q
unfolding identity_to_worker
identity_to_worker-public source_json p q same_source same_host same_port =
    rw (same_source, same_host, same_port, public_headers-nil p, public_headers-nil q)
