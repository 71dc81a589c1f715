-- ===== src/Hooks/Names.antt =====
-- Which names the hook table treats as credential hooks, and that translating names loses nothing.
use cpex.Prelude.{
  ◌≡◌, ◌↔◌, ◌⊎◌, inl, inr, true, String, arith, eq_iff, Option, some, find, ◌==◌, ap, find-some,
  Option-cases, All,
}
use cpex.Ppe.{hook_identity_resolve, hook_token_delegate}
use cpex.Hooks.{
  is_credential_hook, is_credential_kind, lookup_route, hook_routes, HookRoute, worker_hook_name,
}

-- What holds of every row holds of the row of a hook, and that row dispatches the hook's name.
row {ℓ} :
    (P : HookRoute → Type ℓ) (hook : String) (r : HookRoute)
    → All P hook_routes
    → lookup_route hook ≡ some r
    → (r.dispatched ≡ hook) × P r
unfolding lookup_route
row P hook r all e =
    let found : ((r.dispatched == hook) ≡ true) × P r =
      find-some P (λ x. x.dispatched == hook) hook_routes r all e in
    ((eq_iff _ _).0 found.0, found.1)

abbrev NamesCredentialHook : HookRoute → Type 0
NamesCredentialHook r =
    is_credential_kind r.kind ≡ true
    → (r.dispatched ≡ hook_identity_resolve) ⊎ (r.dispatched ≡ hook_token_delegate)

rows-NamesCredentialHook : All NamesCredentialHook hook_routes
unfolding is_credential_kind
rows-NamesCredentialHook = ground arith

-- A hook carries raw credentials exactly when it is `identity.resolve` or `token.delegate`.
pub is_credential_hook_iff :
    (hook : String)
    → (is_credential_hook hook ≡ true)
      ↔ ((hook ≡ hook_identity_resolve) ⊎ (hook ≡ hook_token_delegate))
unfolding is_credential_hook
is_credential_hook_iff hook = (
  λ h. elim (Option-cases (lookup_route hook)) [
    | inl e ↦ absurd (ground arith)
    | inr (r, e) ↦
        let credential : is_credential_kind r.kind ≡ true = ground arith in
        let (named, names) = row NamesCredentialHook hook r rows-NamesCredentialHook e in
        rw (← named) (names credential)
  ],
  λ h. elim h [ inl e ↦ rw e | inr e ↦ rw e ],
)

-- The row that a worker's spelling belongs to.
abbrev pub route_of_worker : String → Option HookRoute
route_of_worker name = find (λ r. r.worker == name) hook_routes

abbrev IsFoundBack : HookRoute → Type 0
IsFoundBack r = route_of_worker r.worker ≡ some r

rows-IsFoundBack : All IsFoundBack hook_routes
rows-IsFoundBack = ground arith

-- Two hooks of the table that reach the worker under one name are one hook.
pub worker_hook_name-injective :
    (hook other : String) (r s : HookRoute)
    → lookup_route hook ≡ some r
    → lookup_route other ≡ some s
    → worker_hook_name hook ≡ worker_hook_name other
    → hook ≡ other
unfolding worker_hook_name
worker_hook_name-injective hook other r s e f same =
    let (from_r, back_r) = row IsFoundBack hook r rows-IsFoundBack e in
    let (from_s, back_s) = row IsFoundBack other s rows-IsFoundBack f in
    let spelled : r.worker ≡ s.worker = ground arith in
    let rs : r ≡ s = ground (arith, back_r, back_s, ap route_of_worker spelled) in
    cc (from_r, from_s, ap (λ (t : HookRoute). t.dispatched) rs)
