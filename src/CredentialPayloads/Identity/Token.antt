-- ===== src/CredentialPayloads/Identity/Token.antt =====
-- Where the inbound token comes from, in crates/cpex-hosts-python/src/credential_payloads.rs.
use cpex.Prelude.{◌≡◌, String, some, arith, false, inl, inr, Bool-cases, Option-cases, ◌∙◌, sym}
use cpex.Text.{is_empty, trim}
use cpex.Text.Blank.{is_blank, is_empty-trim, is_blank-trim}
use cpex.Ppe.{IdentityPayload}
use cpex.CredentialPayloads.{header_entry, strip_bearer}
use cpex.CredentialPayloads.Identity.{inbound_token, nonblank, or_default}

nonblank-trim : (s t : String) → nonblank (trim s) ≡ some t → is_blank t ≡ false
unfolding nonblank
nonblank-trim s t h = elim (Bool-cases (is_blank s)) [
  | inl e ↦ absurd (ground (arith, is_empty-trim s))
  | inr e ↦ let same : trim s ≡ t = ground arith in rw (← same) (is_blank-trim s ∙ e)
]

-- The token that is found is never blank.
pub inbound_token-nonblank :
    (p : IdentityPayload) (t : String) → inbound_token p ≡ some t → is_blank t ≡ false
unfolding inbound_token
inbound_token-nonblank p t h = elim (Bool-cases (is_empty (trim p.raw_token))) [
  | inl e ↦ elim (Option-cases (header_entry p.headers (or_default p.source_header))) [
    | inl none_found ↦ absurd (ground arith)
    | inr (entry, found) ↦ nonblank-trim (strip_bearer entry.1) t (ground arith)
  ]
  | inr e ↦
      let same : p.raw_token ≡ t = ground arith in rw (← same) (sym (is_empty-trim p.raw_token) ∙ e)
]
