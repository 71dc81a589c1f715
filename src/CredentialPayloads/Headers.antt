-- ===== src/CredentialPayloads/Headers.antt =====
-- The header rules of crates/cpex-hosts-python/src/credential_payloads.rs.
use cpex.Prelude.{◌≡◌, refl, false, String, Option, arith, [], ◌∷◌, filter}
use cpex.Ppe
use cpex.CredentialPayloads.{is_public_header}

-- As no header is approved, none is forwarded.
pub none_public :
    (name value : String) (source token : Option String)
    → is_public_header name value source token ≡ false
unfolding is_public_header
none_public name value source token = ground arith

pub filter_none_public :
    (headers : Ppe.Headers) (source token : Option String)
    → filter (λ h. is_public_header h.0 h.1 source token) headers ≡ []
filter_none_public [] source token = refl
filter_none_public (h ∷ hs) source token =
    rw (none_public h.0 h.1 source token) (filter_none_public hs source token)
