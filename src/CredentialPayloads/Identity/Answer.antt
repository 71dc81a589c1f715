-- ===== src/CredentialPayloads/Identity/Answer.antt =====
-- What a worker's answer to `identity.resolve` can do to the payload.
use cpex.Prelude.{
  Bool-cases, if◌then◌else◌, ◌≡◌, ◌∙◌, refl, String, Option, none, some, arith, inl, inr, ap, true,
  false, All,
}
use cpex.Text.{is_empty}
use cpex.Json.{Value, Fields, null, bool, object, entries, get}
use cpex.Result.{ok, >>=-eq-ok}
use cpex.Ppe.{IdentityPayload, PluginViolation, hook_identity_resolve}
use cpex.CredentialPayloads.{check_keys, as_fields}
use cpex.CredentialPayloads.Keys.{IsHeld, check_keys_iff, as_fields-object}
use cpex.CredentialPayloads.Identity.{
  IdentityOutcome, resolved, rejected, IdentitySerde, with_subject, with_delegation, with_claims,
  resolve_fields, decide_identity, identity_from_worker, rejection, reject_reason, with_status,
  is_known,
}

-- The credential and the rest of the request, which a plugin may read and not write.
pub record SameInput (p q : IdentityPayload) : Type 0 where
  pub raw_token : q.raw_token ≡ p.raw_token
  pub source : q.source ≡ p.source
  pub source_header : q.source_header ≡ p.source_header
  pub headers : q.headers ≡ p.headers
  pub client_host : q.client_host ≡ p.client_host
  pub client_port : q.client_port ≡ p.client_port

-- A rejection carries the fixed code and a reason.
pub record IsRejection (v : PluginViolation) : Type 0 where
  pub coded : v.code ≡ "auth.rejected"
  pub reasoned : is_empty v.reason ≡ false

abbrev pub Answers : IdentityPayload → Option Value → IdentityOutcome → Type 0
Answers original flag (resolved p) = SameInput original p × ((flag ≡ some (bool true)) → ⊥)
Answers original flag (rejected v) = IsRejection v × (flag ≡ some (bool true))

SameInput-trans : {p q r : IdentityPayload} → SameInput p q → SameInput q r → SameInput p r
SameInput-trans a b = record {
  raw_token = b.raw_token ∙ a.raw_token;
  source = b.source ∙ a.source;
  source_header = b.source_header ∙ a.source_header;
  headers = b.headers ∙ a.headers;
  client_host = b.client_host ∙ a.client_host;
  client_port = b.client_port ∙ a.client_port;
}

with_status-keeps :
    (v : PluginViolation) (status : Option Value) (w : PluginViolation)
    → with_status v status ≡ ok w
    → (w.code ≡ v.code) × (w.reason ≡ v.reason)
unfolding with_status
with_status-keeps v none w h = ground arith
with_status-keeps v (some null) w h = ground arith
with_status-keeps v (some other) w h = ground arith

reason_given :
    (reason : String)
    → is_empty (if is_empty reason then "the identity plugin rejected the credential" else reason)
      ≡ false
unfolding is_empty
reason_given reason = elim (Bool-cases (is_empty reason)) [
  | inl blank ↦ rw blank refl
  | inr given ↦ rw given given
]

rejection-IsRejection :
    (fields : Fields) (v : PluginViolation) → rejection fields ≡ ok v → IsRejection v
unfolding rejection
rejection-IsRejection fields v h =
    let (reason, e, h₁) = >>=-eq-ok (reject_reason (get "reject_reason" fields)) _ h in
    let kept = with_status-keeps _ (get "reject_status" fields) v h₁ in
    record { coded = kept.0; reasoned = ap is_empty kept.1 ∙ reason_given reason }

module _ (s : IdentitySerde) where
  with_subject-SameInput :
      (p : IdentityPayload) (v : Option Value) (q : IdentityPayload)
      → with_subject s p v ≡ ok q
      → SameInput p q
  unfolding with_subject
  with_subject-SameInput p none q h = ground arith
  with_subject-SameInput p (some null) q h = ground arith
  with_subject-SameInput p (some _) q h = ground arith

  with_delegation-SameInput :
      (p : IdentityPayload) (v : Option Value) (q : IdentityPayload)
      → with_delegation s p v ≡ ok q
      → SameInput p q
  unfolding with_delegation
  with_delegation-SameInput p none q h = ground arith
  with_delegation-SameInput p (some null) q h = ground arith
  with_delegation-SameInput p (some _) q h = ground arith

  with_claims-SameInput :
      (p : IdentityPayload) (v : Option Value) (q : IdentityPayload)
      → with_claims s p v ≡ ok q
      → SameInput p q
  unfolding with_claims
  with_claims-SameInput p none q h = ground arith
  with_claims-SameInput p (some null) q h = ground arith
  with_claims-SameInput p (some (object fs)) q h = ground arith
  with_claims-SameInput p (some _) q h = ground arith

  resolve_fields-SameInput :
      (p : IdentityPayload) (fields : Fields) (o : IdentityOutcome)
      → resolve_fields s p fields ≡ ok o
      → (q : IdentityPayload) × (o ≡ resolved q) × SameInput p q
  unfolding resolve_fields
  resolve_fields-SameInput p fields o h =
      let (q, subject, h₁) = >>=-eq-ok (with_subject s p (get "subject" fields)) _ h in
      let (r, delegation, h₂) = >>=-eq-ok (with_delegation s q (get "delegation" fields)) _ h₁ in
      let (t, claims, h₃) = >>=-eq-ok (with_claims s r (get "raw_claims" fields)) _ h₂ in
      let a : SameInput p q = with_subject-SameInput p _ q subject in
      let b : SameInput q r = with_delegation-SameInput q _ r delegation in
      let c : SameInput r t = with_claims-SameInput r _ t claims in
      (t, ground arith, SameInput-trans (SameInput-trans a b) c)

  resolve_fields-Answers :
      (p : IdentityPayload) (fields : Fields) (flag : Option Value) (o : IdentityOutcome)
      → (flag ≡ some (bool true) → ⊥)
      → resolve_fields s p fields ≡ ok o
      → Answers p flag o
  resolve_fields-Answers p fields flag o untrue h =
      let (q, e, same) = resolve_fields-SameInput p fields o h in rw e (same, untrue)

  decide_identity-Answers :
      (p : IdentityPayload) (fields : Fields) (flag : Option Value) (o : IdentityOutcome)
      → decide_identity s p fields flag ≡ ok o
      → Answers p flag o
  unfolding decide_identity
  decide_identity-Answers p fields none o h = resolve_fields-Answers p fields none o (λ e. cc) h
  decide_identity-Answers p fields (some null) o h =
      resolve_fields-Answers p fields (some null) o (λ e. cc) h
  decide_identity-Answers p fields (some (bool false)) o h =
      resolve_fields-Answers p fields (some (bool false)) o (λ e. cc) h
  decide_identity-Answers p fields (some (bool true)) o h =
      let (v, e, done) = >>=-eq-ok (rejection fields) _ h in
      let is : rejected v ≡ o = ground arith in rw (← is) (rejection-IsRejection fields v e, refl)
  decide_identity-Answers p fields (some _) o h = cc

  -- Whatever a worker answers to `identity.resolve`: if the answer is taken, every returned field
  -- that holds something has a known name; a resolved payload has the credential, headers and
  -- client of the original, and the answer did not say `rejected: true`; a rejection is the
  -- answer to `rejected: true` alone, and has the fixed code and a reason.
  pub identity_from_worker-Answers :
      (original : IdentityPayload) (modified : Value) (o : IdentityOutcome)
      → identity_from_worker s original modified ≡ ok o
      → (fields : Fields) × (modified ≡ object fields)
        × All (IsHeld is_known) (entries fields)
        × Answers original (get "rejected" fields) o
  unfolding identity_from_worker
  identity_from_worker-Answers original modified o h =
      let (fields, e, h₁) = >>=-eq-ok (as_fields hook_identity_resolve modified) _ h in
      let (_, checked, h₂) = >>=-eq-ok (check_keys hook_identity_resolve is_known fields) _ h₁ in
      (
        fields,
        as_fields-object hook_identity_resolve modified fields e,
        (check_keys_iff hook_identity_resolve is_known fields).0 checked,
        decide_identity-Answers original fields (get "rejected" fields) o h₂,
      )
