-- ===== src/Credentials/Attach/Undeclared.antt =====
-- A plugin that declares no credential, in crates/cpex-hosts-python/src/credentials.rs.
use cpex.Prelude.{◌≡◌, refl, false, String, Option-cases, inl, inr}
use cpex.Json.{Value}
use cpex.Result.{ok}
use cpex.Ppe.{Extensions}
use cpex.Payload.{Payload}
use cpex.Hooks.{PayloadKind, payload_kind_for_hook}
use cpex.Credentials.{Capabilities, declares, cap_read_inbound, cap_read_delegated}
use cpex.Credentials.Attach.{
  attach_inbound, attach_delegated, attach_by_kind, attach_credential,
  attach_credential_for_payload, payload_dto,
}

module _ (task : Value) (hook : String) (x : Extensions) (capabilities : Capabilities)
    (no_inbound : declares cap_read_inbound capabilities ≡ false)
    (no_delegated : declares cap_read_delegated capabilities ≡ false) where
  attach_by_kind-undeclared :
      (kind : PayloadKind) → attach_by_kind kind task hook x capabilities ≡ ok task
  unfolding attach_by_kind attach_inbound attach_delegated
  attach_by_kind-undeclared PayloadKind.identity_resolve = rw no_inbound refl
  attach_by_kind-undeclared PayloadKind.token_delegate = rw no_delegated refl
  attach_by_kind-undeclared _ = refl

  -- Nothing is attached.
  pub attach_credential_for_payload-undeclared :
      (p : Payload) → attach_credential_for_payload task hook p x capabilities ≡ ok task
  unfolding attach_credential_for_payload attach_credential
  attach_credential_for_payload-undeclared p =
      elim (Option-cases (payload_dto (payload_kind_for_hook hook) p hook)) [
        | inl other ↦
            rw (other, attach_credential_for_payload)
              (attach_by_kind-undeclared (payload_kind_for_hook hook))
        | inr (made, own) ↦ rw (own, attach_credential_for_payload, no_inbound) refl
      ]
