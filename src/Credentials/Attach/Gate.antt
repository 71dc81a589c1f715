-- ===== src/Credentials/Attach/Gate.antt =====
-- The capability gate of crates/cpex-hosts-python/src/credentials.rs: who receives a credential, and
-- that a plugin which asked for one is never dispatched without it.
use cpex.Prelude.{
  if◌then◌else◌, ◌≡◌, refl, sym, ◌∙◌, ◌⊎◌, inl, inr, true, false, Bool-cases, String, Option, none,
  some, arith, ap,
}
use cpex.Text.Blank.{is_blank}
use cpex.Json.{Value}
use cpex.Result.{Result, ok, ◌>>=◌, >>=-eq-ok}
use cpex.Ppe.{Extensions}
use cpex.Payload.{Payload, identity, delegation}
use cpex.Hooks.{PayloadKind, payload_kind_for_hook, identity_resolve, token_delegate}
use cpex.Credentials.{
  InboundCredential, DelegatedCredential, CredentialDto, Capabilities, declares, cap_read_inbound,
  cap_read_delegated, insert_dto, build_inbound,
}
use cpex.Credentials.Delegated.{build_delegated, requested_audience}
use cpex.Credentials.Attach.Tokens.{
  build_inbound-nonblank, build_delegated-nonblank, inbound_from_identity-nonblank,
  delegated_from_payload-nonblank,
}
use cpex.Credentials.Attach.{
  attach_credential, attach_by_kind, attach_inbound, attach_delegated,
  attach_credential_for_payload, payload_dto, inbound_from_identity, delegated_from_payload,
  inbound_dto, delegated_dto,
}

-- The capability that a hook's credential takes with a payload. A payload of PPE's own holds the
-- caller's inbound token, on both hooks.
abbrev pub capability_for : PayloadKind → Payload → Option String
capability_for identity_resolve payload = some cap_read_inbound
capability_for token_delegate (delegation p) = some cap_read_inbound
capability_for token_delegate payload = some cap_read_delegated
capability_for _ payload = none

-- One of the two parts is there, with a token that is not blank.
pub data HasToken : CredentialDto → Type 0 where
  inbound : (c : InboundCredential) → is_blank c.token ≡ false → HasToken (inbound_dto c)
  delegated : (c : DelegatedCredential) → is_blank c.token ≡ false → HasToken (delegated_dto c)

abbrev pub Asked : Option String → Capabilities → Type 0
Asked required capabilities =
    (cap : String) × (required ≡ some cap) × (declares cap capabilities ≡ true)

-- Either the credential was not asked for and the task is as it was, or it was asked for and the
-- task is the old one with a credential that has a token.
abbrev pub Gated : Option String → Capabilities → Value → Value → Type 0
Gated required capabilities task task' =
    ((task' ≡ task) × (Asked required capabilities → ⊥))
    ⊎ (Asked required capabilities
        × ((dto : CredentialDto) × HasToken dto × (insert_dto task dto ≡ ok task')))

skipped :
    (required : Option String) (capabilities : Capabilities) (task task' : Value) (cap : String)
    → required ≡ some cap
    → declares cap capabilities ≡ false
    → ok task ≡ ok task'
    → Gated required capabilities task task'
skipped required capabilities task task' cap e undeclared h = inl (
  ground arith,
  λ asked.
      let (cap', f, yes') = asked in
      ground (arith, ap (λ (c : String). declares c capabilities) (cap_eq cap cap' (sym e ∙ f))),
)
  where
    cap_eq : (a b : String) → some a ≡ some b → a ≡ b
    cap_eq a b x = ground arith

attach_inbound-Gated :
    (task task' : Value) (hook : String) (x : Extensions) (capabilities : Capabilities)
    → attach_inbound task hook x capabilities ≡ ok task'
    → Gated (some cap_read_inbound) capabilities task task'
unfolding attach_inbound
attach_inbound-Gated task task' hook x capabilities h =
    elim (Bool-cases (declares cap_read_inbound capabilities)) [
      | inl asked ↦
          let (c, e, h₁) = >>=-eq-ok (build_inbound x hook) _ (rw asked at h) in
          inr (
            (cap_read_inbound, refl, asked),
            (inbound_dto c, inbound c (build_inbound-nonblank x hook c e), h₁),
          )
      | inr e ↦
          skipped (some cap_read_inbound) capabilities task task' cap_read_inbound refl e
            (rw e at h)
    ]

attach_delegated-Gated :
    (task task' : Value) (hook : String) (x : Extensions) (capabilities : Capabilities)
    → attach_delegated task hook x capabilities ≡ ok task'
    → Gated (some cap_read_delegated) capabilities task task'
unfolding attach_delegated
attach_delegated-Gated task task' hook x capabilities h =
    elim (Bool-cases (declares cap_read_delegated capabilities)) [
      | inl asked ↦
          let (c, e, h₁) =
            >>=-eq-ok (build_delegated x hook (requested_audience task)) _ (rw asked at h) in
          inr (
            (cap_read_delegated, refl, asked),
            (
              delegated_dto c,
              delegated c (build_delegated-nonblank x hook (requested_audience task) c e),
              h₁,
            ),
          )
      | inr e ↦
          skipped (some cap_read_delegated) capabilities task task' cap_read_delegated refl e
            (rw e at h)
    ]

own-Gated :
    (made : Result CredentialDto) (task task' : Value) (capabilities : Capabilities)
    → ((dto : CredentialDto) → made ≡ ok dto → HasToken dto)
    → (if declares cap_read_inbound capabilities then (made >>= insert_dto task) else ok task)
      ≡ ok task'
    → Gated (some cap_read_inbound) capabilities task task'
own-Gated made task task' capabilities has h =
    elim (Bool-cases (declares cap_read_inbound capabilities)) [
      | inl asked ↦
          let (dto, e, h₁) = >>=-eq-ok made (insert_dto task) (rw asked at h) in
          inr ((cap_read_inbound, refl, asked), (dto, has dto e, h₁))
      | inr e ↦
          skipped (some cap_read_inbound) capabilities task task' cap_read_inbound refl e
            (rw e at h)
    ]

payload-Gated :
    (kind : PayloadKind) (payload : Payload) (task task' : Value) (hook : String) (x : Extensions)
    (capabilities : Capabilities)
    → payload_kind_for_hook hook ≡ kind
    → attach_credential_for_payload task hook payload x capabilities ≡ ok task'
    → Gated (capability_for kind payload) capabilities task task'
unfolding attach_credential_for_payload attach_credential
payload-Gated identity_resolve (identity p) task task' hook x capabilities e h =
    own-Gated (do c ← inbound_from_identity p hook; ok (inbound_dto c)) task task' capabilities has
      (rw (e, attach_credential_for_payload, payload_dto) at h)
  where
    has :
        (dto : CredentialDto)
        → (do c ← inbound_from_identity p hook; ok (inbound_dto c)) ≡ ok dto
        → HasToken dto
    has dto f =
        let (c, made, same) = >>=-eq-ok (inbound_from_identity p hook) _ f in
        let is : inbound_dto c ≡ dto = ground arith in
        rw (← is) (inbound c (inbound_from_identity-nonblank p hook c made))
payload-Gated identity_resolve payload task task' hook x capabilities e h =
    attach_inbound-Gated task task' hook x capabilities (
      rw (e, attach_credential, attach_by_kind) at
        (rw (e, attach_credential_for_payload, payload_dto) at h))
payload-Gated token_delegate (delegation p) task task' hook x capabilities e h =
    own-Gated (do c ← delegated_from_payload p hook; ok (delegated_dto c)) task task' capabilities
      has (rw (e, attach_credential_for_payload, payload_dto) at h)
  where
    has :
        (dto : CredentialDto)
        → (do c ← delegated_from_payload p hook; ok (delegated_dto c)) ≡ ok dto
        → HasToken dto
    has dto f =
        let (c, made, same) = >>=-eq-ok (delegated_from_payload p hook) _ f in
        let is : delegated_dto c ≡ dto = ground arith in
        rw (← is) (delegated c (delegated_from_payload-nonblank p hook c made))
payload-Gated token_delegate payload task task' hook x capabilities e h =
    attach_delegated-Gated task task' hook x capabilities (
      rw (e, attach_credential, attach_by_kind) at
        (rw (e, attach_credential_for_payload, payload_dto) at h))
payload-Gated kind payload task task' hook x capabilities e h =
    let unchanged : ok task ≡ ok task' =
      rw (e, attach_credential, attach_by_kind) at
        (rw (e, attach_credential_for_payload, payload_dto) at h) in
    inl (ground arith, λ asked. cc (asked.1))

-- If a task is dispatched, the hook's credential was gated by its capability: a plugin that does
-- not declare it, or a hook that has none, leaves the task as it was; a plugin that declares it has
-- a credential with a token that is not blank in the task.
pub attach_credential_for_payload-Gated :
    (payload : Payload) (task task' : Value) (hook : String) (x : Extensions)
    (capabilities : Capabilities)
    → attach_credential_for_payload task hook payload x capabilities ≡ ok task'
    → Gated (capability_for (payload_kind_for_hook hook) payload) capabilities task task'
attach_credential_for_payload-Gated payload task task' hook x capabilities h =
    payload-Gated (payload_kind_for_hook hook) payload task task' hook x capabilities refl h
