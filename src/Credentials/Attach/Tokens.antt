-- ===== src/Credentials/Attach/Tokens.antt =====
-- No credential that crates/cpex-hosts-python/src/credentials.rs builds has a blank token.
use cpex.Prelude.{◌≡◌, sym, ◌∙◌, inl, inr, false, Bool-cases, String, Option, arith}
use cpex.Text.{is_empty, trim}
use cpex.Text.Blank.{is_blank, is_empty-trim}
use cpex.Result.{ok, >>=-eq-ok, ok_or}
use cpex.Ppe.{Extensions, IdentityPayload, DelegationPayload, RawInboundToken, RawDelegatedToken}
use cpex.CredentialPayloads.Identity.{inbound_token}
use cpex.CredentialPayloads.Identity.Token.{inbound_token-nonblank}
use cpex.Credentials.{
  InboundCredential, DelegatedCredential, build_inbound, inbound_from_token, pick_inbound,
}
use cpex.Credentials.Delegated.{build_delegated, delegated_from_token, pick_delegated}
use cpex.Credentials.Attach.{inbound_from_identity, delegated_from_payload}

pub inbound_from_token-nonblank :
    (t : RawInboundToken) (hook : String) (c : InboundCredential)
    → inbound_from_token t hook ≡ ok c
    → is_blank c.token ≡ false
unfolding inbound_from_token
inbound_from_token-nonblank t hook c h = elim (Bool-cases (is_empty (trim t.token))) [
  | inl e ↦ absurd (ground arith)
  | inr e ↦
      let same : t.token ≡ c.token = ground arith in rw (← same) (sym (is_empty-trim t.token) ∙ e)
]

pub build_inbound-nonblank :
    (x : Extensions) (hook : String) (c : InboundCredential)
    → build_inbound x hook ≡ ok c
    → is_blank c.token ≡ false
unfolding build_inbound
build_inbound-nonblank x hook c h =
    let (raw, _, h₁) = >>=-eq-ok (ok_or x.raw_credentials _) _ h in
    let (token, _, h₂) = >>=-eq-ok (ok_or (pick_inbound raw.inbound_tokens) _) _ h₁ in
    inbound_from_token-nonblank token hook c h₂

pub delegated_from_token-nonblank :
    (t : RawDelegatedToken) (hook : String) (c : DelegatedCredential)
    → delegated_from_token t hook ≡ ok c
    → is_blank c.token ≡ false
unfolding delegated_from_token
delegated_from_token-nonblank t hook c h = elim (Bool-cases (is_empty (trim t.token))) [
  | inl e ↦ absurd (ground arith)
  | inr e ↦
      let same : t.token ≡ c.token = ground arith in rw (← same) (sym (is_empty-trim t.token) ∙ e)
]

pub build_delegated-nonblank :
    (x : Extensions) (hook : String) (audience : Option String) (c : DelegatedCredential)
    → build_delegated x hook audience ≡ ok c
    → is_blank c.token ≡ false
unfolding build_delegated
build_delegated-nonblank x hook audience c h =
    let (raw, _, h₁) = >>=-eq-ok (ok_or x.raw_credentials _) _ h in
    let (chosen, _, h₂) = >>=-eq-ok (ok_or (pick_delegated raw.delegated_tokens audience) _) _ h₁ in
    delegated_from_token-nonblank chosen.1 hook c h₂

pub inbound_from_identity-nonblank :
    (p : IdentityPayload) (hook : String) (c : InboundCredential)
    → inbound_from_identity p hook ≡ ok c
    → is_blank c.token ≡ false
unfolding inbound_from_identity
inbound_from_identity-nonblank p hook c h =
    let (token, e, h₁) = >>=-eq-ok (ok_or (inbound_token p) _) _ h in
    let same : token ≡ c.token = ground arith in
    rw (← same) (inbound_token-nonblank p token (ground arith))

pub delegated_from_payload-nonblank :
    (p : DelegationPayload) (hook : String) (c : DelegatedCredential)
    → delegated_from_payload p hook ≡ ok c
    → is_blank c.token ≡ false
unfolding delegated_from_payload
delegated_from_payload-nonblank p hook c h = elim (Bool-cases (is_empty (trim p.bearer_token))) [
  | inl e ↦ absurd (ground arith)
  | inr e ↦
      let same : p.bearer_token ≡ c.token = ground arith in
      rw (← same) (sym (is_empty-trim p.bearer_token) ∙ e)
]
