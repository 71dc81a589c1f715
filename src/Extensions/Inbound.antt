-- ===== src/Extensions/Inbound.antt =====
-- What a worker's answer may change in the extensions, of crates/cpex-hosts-python/src/extensions.rs.
use cpex.Prelude.{
  ◌≡◌, refl, true, false, ◌&&◌, String, Option, none, some, List, [], ◌∷◌, arith, All, ◌⊎◌, inl,
  inr, Bool-cases, ap, sym, ◌∙◌, ℕ, ◌++◌,
}
use cpex.Prelude.Order.{In}
use cpex.Json.{Value, null, object}
use cpex.Result.{ok, >>=-eq-ok}
use cpex.Ppe.{
  Headers, HttpExtension, SecurityExtension, DelegationExtension, Extensions, OwnedExtensions,
  Object,
}
use cpex.Extensions.{
  Core, Draft, is_sensitive, strip_sensitive, returned_http, take_http, take_security,
  take_delegation, take_custom, take_slots, add_labels, or_default, chain_of, finish, slot,
  owned_from_returned_slot,
}

-- What the host relies on: the copy has the slots of the view, adding a label keeps the labels
-- and the principal, and a chain that extends another begins with its hops.
pub record IsCore (core : Core) : Type 0 where
  pub copied :
      (x : Extensions)
      → core.cow_copy x ≡ record {
        immutable = x.immutable;
        http = x.http;
        security = x.security;
        delegation = x.delegation;
        custom = x.custom;
      }
  pub chain_kept :
      (before after : List Value)
      → core.chain_extends before after ≡ true
      → (added : List Value) × (after ≡ before ++ added)
  pub principal_kept :
      (s : SecurityExtension) (l : String) → (core.add_label s l).principal ≡ s.principal
  pub labels_kept :
      (s : SecurityExtension) (l m : String) → In m s.labels → In m (core.add_label s l).labels

abbrev line_of :
    Option HttpExtension
    → Headers × Option ℕ × Option String × Option String × Option String × Option String
line_of none = ([], none, none, none, none, none)
line_of (some h) = (h.secret_headers, h.status, h.method, h.path, h.host, h.scheme)

-- No header that the worker returned is a credential header, and the secret headers, the status
-- and the request line are those of the view.
abbrev pub IsHttpEdit : Option HttpExtension → HttpExtension → Type 0
IsHttpEdit inbound h =
    All (λ e. is_sensitive e.0 ≡ false) h.request_headers
    × All (λ e. is_sensitive e.0 ≡ false) h.response_headers
    × (line_of (some h) ≡ line_of inbound)

-- The principal is that of the view, and so are its labels, to which others may be added.
abbrev pub IsLabelling : SecurityExtension → SecurityExtension → Type 0
IsLabelling before after =
    (after.principal ≡ before.principal) × ((l : String) → In l before.labels → In l after.labels)

abbrev pub HttpConfined : Extensions → OwnedExtensions → Type 0
HttpConfined x owned =
    (owned.http ≡ x.http)
    ⊎ ((x.http_write_token ≡ true)
        × ((h : HttpExtension) × (owned.http ≡ some h) × IsHttpEdit x.http h))

abbrev pub SecurityConfined : Core → Extensions → OwnedExtensions → Type 0
SecurityConfined core x owned =
    (owned.security ≡ x.security)
    ⊎ ((x.labels_write_token ≡ true)
        × ((s : SecurityExtension) × (owned.security ≡ some s)
            × IsLabelling (or_default core.default_security x.security) s))

abbrev pub DelegationConfined : Core → Extensions → OwnedExtensions → Type 0
DelegationConfined core x owned =
    (owned.delegation ≡ x.delegation)
    ⊎ ((x.delegation_write_token ≡ true)
        × ((d : DelegationExtension) × (owned.delegation ≡ some d)
            × (core.chain_extends (chain_of x.delegation) d.chain ≡ true)
            × ((added : List Value) × (d.chain ≡ chain_of x.delegation ++ added))))

abbrev pub Confined : Core → Extensions → OwnedExtensions → Type 0
Confined core x owned =
    (owned.immutable ≡ x.immutable)
    × HttpConfined x owned
    × SecurityConfined core x owned
    × DelegationConfined core x owned

strip_sensitive-All : (hs : Headers) → All (λ e. is_sensitive e.0 ≡ false) (strip_sensitive hs)
unfolding strip_sensitive
strip_sensitive-All [] = tt
strip_sensitive-All (h ∷ hs) = ground (arith, strip_sensitive-All hs)

returned_http-IsHttpEdit :
    (h : HttpExtension) (inbound : Option HttpExtension)
    → IsHttpEdit inbound (returned_http h inbound)
unfolding returned_http
returned_http-IsHttpEdit h none =
    (strip_sensitive-All h.request_headers, strip_sensitive-All h.response_headers, refl)
returned_http-IsHttpEdit h (some i) =
    (strip_sensitive-All h.request_headers, strip_sensitive-All h.response_headers, refl)

add_labels-IsLabelling :
    (core : Core)
    → IsCore core
    → (s : SecurityExtension) (ls : List String) → IsLabelling s (add_labels core s ls)
unfolding add_labels
add_labels-IsLabelling core laws s [] = (refl, λ l i. i)
add_labels-IsLabelling core laws s (l ∷ ls) =
    let (same, kept) = add_labels-IsLabelling core laws (core.add_label s l) ls in
    (same ∙ laws.principal_kept s l, λ m i. kept m (laws.labels_kept s l m i))

take_custom-owned :
    (c : Option Object) (d : Draft)
    → ((take_custom c d).owned.immutable ≡ d.owned.immutable)
      × ((take_custom c d).owned.http ≡ d.owned.http)
      × ((take_custom c d).owned.security ≡ d.owned.security)
      × ((take_custom c d).owned.delegation ≡ d.owned.delegation)
unfolding take_custom
take_custom-owned none d = (refl, refl, refl, refl)
take_custom-owned (some c) d = (refl, refl, refl, refl)

take_delegation-owned :
    (core : Core) (x : Extensions) (c : Option DelegationExtension) (d : Draft)
    → ((take_delegation core x c d).owned.immutable ≡ d.owned.immutable)
      × ((take_delegation core x c d).owned.http ≡ d.owned.http)
      × ((take_delegation core x c d).owned.security ≡ d.owned.security)
unfolding take_delegation
take_delegation-owned core x none d = (refl, refl, refl)
take_delegation-owned core x (some c) d = ground arith

take_security-owned :
    (core : Core) (x : Extensions) (c : Option SecurityExtension) (d : Draft)
    → ((take_security core x c d).owned.immutable ≡ d.owned.immutable)
      × ((take_security core x c d).owned.http ≡ d.owned.http)
      × ((take_security core x c d).owned.delegation ≡ d.owned.delegation)
unfolding take_security
take_security-owned core x none d = (refl, refl, refl)
take_security-owned core x (some c) d = ground arith

take_http-owned :
    (x : Extensions) (c : Option HttpExtension) (d : Draft)
    → ((take_http x c d).owned.immutable ≡ d.owned.immutable)
      × ((take_http x c d).owned.security ≡ d.owned.security)
      × ((take_http x c d).owned.delegation ≡ d.owned.delegation)
unfolding take_http
take_http-owned x none d = (refl, refl, refl)
take_http-owned x (some c) d = ground arith

take_http-Confined :
    (x : Extensions) (c : Option HttpExtension) (d : Draft)
    → d.owned.http ≡ x.http
    → HttpConfined x (take_http x c d).owned
unfolding take_http
take_http-Confined x none d same = inl same
take_http-Confined x (some h) d same = elim (Bool-cases x.http_write_token) [
  | inl t ↦ rw t (inr (refl, (returned_http h x.http, refl, returned_http-IsHttpEdit h x.http)))
  | inr f ↦ inl (rw f same)
]

take_security-Confined :
    (core : Core)
    → IsCore core
    → (x : Extensions) (c : Option SecurityExtension) (d : Draft) → d.owned.security ≡ x.security
    → SecurityConfined core x (take_security core x c d).owned
unfolding take_security
take_security-Confined core laws x none d same = inl same
take_security-Confined core laws x (some s) d same = elim (Bool-cases x.labels_write_token) [
  | inl t ↦
      let before = or_default core.default_security x.security in
      rw t (
        inr (
          refl,
          (add_labels core before s.labels, refl, add_labels-IsLabelling core laws before s.labels),
        ))
  | inr f ↦ inl (rw f same)
]

take_delegation-Confined :
    (core : Core)
    → IsCore core
    → (x : Extensions) (c : Option DelegationExtension) (d : Draft)
    → d.owned.delegation ≡ x.delegation
    → DelegationConfined core x (take_delegation core x c d).owned
unfolding take_delegation
take_delegation-Confined core laws x none d same = inl same
take_delegation-Confined core laws x (some c) d same =
    elim (Bool-cases
      (x.delegation_write_token && core.chain_extends (chain_of x.delegation) c.chain)) [
        | inl t ↦
            let extends : core.chain_extends (chain_of x.delegation) c.chain ≡ true =
              ground arith in
            inr (ground arith, (c, rw t refl, extends, laws.chain_kept _ _ extends))
        | inr f ↦ inl (rw f same)
      ]

HttpConfined-eq :
    (x : Extensions) (a b : OwnedExtensions) → b.http ≡ a.http → HttpConfined x a → HttpConfined x b
HttpConfined-eq x a b e h = rw (sym e) at h

SecurityConfined-eq :
    (core : Core) (x : Extensions) (a b : OwnedExtensions)
    → b.security ≡ a.security
    → SecurityConfined core x a
    → SecurityConfined core x b
SecurityConfined-eq core x a b e h = rw (sym e) at h

DelegationConfined-eq :
    (core : Core) (x : Extensions) (a b : OwnedExtensions)
    → b.delegation ≡ a.delegation
    → DelegationConfined core x a
    → DelegationConfined core x b
DelegationConfined-eq core x a b e h = rw (sym e) at h

taken-Confined :
    (core : Core)
    → IsCore core
    → (x : Extensions) (h : Option HttpExtension) (s : Option SecurityExtension)
      (g : Option DelegationExtension) (c : Option Object) (d : Draft)
    → d.owned ≡ core.cow_copy x
    → Confined core x
        (take_custom c (take_delegation core x g (take_security core x s (take_http x h d)))).owned
taken-Confined core laws x h s g c d start =
    let d₁ = take_http x h d in
    let d₂ = take_security core x s d₁ in
    let d₃ = take_delegation core x g d₂ in
    let d₄ = take_custom c d₃ in
    let copied = start ∙ laws.copied x in
    let (i₁, s₁, g₁) = take_http-owned x h d in
    let (i₂, h₂, g₂) = take_security-owned core x s d₁ in
    let (i₃, h₃, s₃) = take_delegation-owned core x g d₂ in
    let (i₄, h₄, s₄, g₄) = take_custom-owned c d₃ in
    (
      i₄ ∙ i₃ ∙ i₂ ∙ i₁ ∙ ap (λ (o : OwnedExtensions). o.immutable) copied,
      HttpConfined-eq x d₁.owned d₄.owned (h₄ ∙ h₃ ∙ h₂)
          (take_http-Confined x h d (ap (λ (o : OwnedExtensions). o.http) copied)),
      SecurityConfined-eq core x d₂.owned d₄.owned (s₄ ∙ s₃) (
          take_security-Confined core laws x s d₁
            (s₁ ∙ ap (λ (o : OwnedExtensions). o.security) copied)),
      DelegationConfined-eq core x d₃.owned d₄.owned g₄ (
          take_delegation-Confined core laws x g d₂
            (g₂ ∙ g₁ ∙ ap (λ (o : OwnedExtensions). o.delegation) copied)),
    )

finish-some : (d : Draft) (o : OwnedExtensions) → finish d ≡ some o → d.owned ≡ o
finish-some d o h = ground arith

-- If an answer's extensions are taken, the immutable slots are those of the view. The http, security and delegation slots
-- are as in the view but where the view has the write token, and then: the header maps hold no credential header while
-- the secret headers, the status and the request line stay; labels are only added and the principal stays; and the
-- delegation is one whose chain begins with the hops of the view's, with its other fields as the worker returned them.
-- The third-party copy, label and chain functions are assumed to keep what they are documented to keep.
pub owned_from_returned_slot-Confined :
    (core : Core)
    → IsCore core
    → (answer : Value) (x : Extensions) (owned : OwnedExtensions)
    → owned_from_returned_slot core answer x ≡ ok (some owned)
    → Confined core x owned
unfolding owned_from_returned_slot take_slots
owned_from_returned_slot-Confined core laws null x owned h = ground arith
owned_from_returned_slot-Confined core laws (object fields) x owned h =
    let (http, e₁, h₁) = >>=-eq-ok (slot core.http_of fields "http") _ h in
    let (security, e₂, h₂) = >>=-eq-ok (slot core.security_of fields "security") _ h₁ in
    let (delegation, e₃, h₃) = >>=-eq-ok (slot core.delegation_of fields "delegation") _ h₂ in
    let (custom, e₄, h₄) = >>=-eq-ok (slot core.custom_of fields "custom") _ h₃ in
    let start : Draft = record { owned = core.cow_copy x; applied = false } in
    let end_draft = take_custom custom (
      take_delegation core x delegation (take_security core x security (take_http x http start))) in
    rw (finish-some end_draft owned (ok_injective _ _ h₄)) at
      (taken-Confined core laws x http security delegation custom start refl)
  where
    ok_injective : (a b : Option OwnedExtensions) → ok a ≡ ok b → a ≡ b
    ok_injective a b e = ground arith
owned_from_returned_slot-Confined core laws _ x owned h = ground arith
