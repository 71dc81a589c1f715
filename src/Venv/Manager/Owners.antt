-- ===== src/Venv/Manager/Owners.antt =====
-- The registry of the plugins that claim an environment, in crates/cpex-hosts-python/src/venv.rs, against a
-- set of names.
use cpex.Prelude.{
  ◌≡◌, refl, ◌∙◌, sym, ap, Bool, true, false, not, ◌&&◌, ◌||◌, String, List, [], ◌∷◌, filter, subst,
  ◌==◌, arith, eq_iff, Bool-cases, inl, inr,
}
use cpex.Result.{ok}
use cpex.Venv.FileSystem.{Disk, Io, ◌>>◌, pure, path_exists, read_file, delete_file}
use cpex.Venv.FileSystem.Frame.{
  go_on-eq-ok, perform-eq-ok, read_file-put_file, read_file-delete_file, path_exists-absent,
}
use cpex.Venv.Tools.{VenvManager, Tools}
use cpex.Venv.Manager.{is_member, owners_in, load_owners, register_owner, release_owner, leave}
use cpex.Venv.Manager.Steps.{register_owner-eq-ok, written_owners}
use cpex.Venv.Manager.Ensure.{Reliable}

-- What plugins do to the registry, one after another.
pub data OwnerCall : Type 0 where
  registers : VenvManager → OwnerCall
  releases : VenvManager → OwnerCall

abbrev pub caller : OwnerCall → VenvManager
caller (registers m) = m
caller (releases m) = m

abbrev pub run_call : Tools → OwnerCall → Io (Unit {0})
run_call t (registers m) = register_owner t m
run_call t (releases m) = release_owner t m

abbrev pub run_calls : Tools → List OwnerCall → Io (Unit {0})
run_calls t [] = pure tt
run_calls t (c ∷ calls) = run_call t c >> run_calls t calls

-- The specification: a set that a name is put in and taken out of.
abbrev pub after_call : OwnerCall → (String → Bool) → String → Bool
after_call (registers m) owned name = name == m.class_name || owned name
after_call (releases m) owned name = not (name == m.class_name) && owned name

abbrev pub after_calls : List OwnerCall → (String → Bool) → String → Bool
after_calls [] owned = owned
after_calls (c ∷ calls) owned = after_calls calls (after_call c owned)

is_member-without :
    (name gone : String) (owners : List String)
    → is_member name (filter (λ o. not (o == gone)) owners)
      ≡ (not (name == gone) && is_member name owners)
is_member-without name gone [] = ground arith
is_member-without name gone (o ∷ owners) =
    ground
      (arith, eq_iff o gone, eq_iff name gone, eq_iff o name, is_member-without name gone owners)

is_member-with :
    (name added : String) (owners : List String)
    → is_member added owners ≡ true
    → is_member name owners ≡ (name == added || is_member name owners)
is_member-with name added owners h = elim (Bool-cases (name == added)) [
  | inl e ↦ rw e (ap (λ o. is_member o owners) ((eq_iff name added).0 e) ∙ h)
  | inr e ↦ rw e refl
]

is_member-outside :
    (name gone : String) (owners : List String)
    → is_member gone owners ≡ false
    → is_member name owners ≡ (not (name == gone) && is_member name owners)
is_member-outside name gone owners h = elim (Bool-cases (name == gone)) [
  | inl e ↦ rw e (ap (λ o. is_member o owners) ((eq_iff name gone).0 e) ∙ h)
  | inr e ↦ rw e refl
]

eq_comm : (a b : String) → (a == b) ≡ (b == a)
eq_comm a b = ground (arith, eq_iff a b, eq_iff b a)

module _ (t : Tools) (r : Reliable t) where
  register_owner-member :
      (m : VenvManager) (d d' : Disk)
      → register_owner t m d ≡ (ok tt, d')
      → (name : String)
      → is_member name (load_owners t m d')
        ≡ after_call (registers m) (λ o. is_member o (load_owners t m d)) name
  unfolding load_owners
  register_owner-member m d d' h name = elim (register_owner-eq-ok t m d d' h) [
    | inl (there, same) ↦ rw same (is_member-with name m.class_name _ there)
    | inr (text, printed, put) ↦
        rw (put, read_file-put_file m.layout.owners_path text _, r.owners _ text printed name)
          (ap (λ b. b || is_member name (load_owners t m d)) (eq_comm m.class_name name))
  ]

  leave-member :
      (m : VenvManager) (owners : List String) (d d' : Disk)
      → leave t m owners d ≡ (ok tt, d')
      → (name : String) → is_member name (load_owners t m d') ≡ is_member name owners
  unfolding load_owners leave
  leave-member m [] d d' h name = elim (Bool-cases (path_exists m.layout.owners_path d)) [
    | inl there ↦
        let gone = perform-eq-ok _ _ (delete_file m.layout.owners_path) d d' (rw there at h) in
        rw (gone, read_file-delete_file m.layout.owners_path d) refl
    | inr absent ↦
        let same = ap (λ x. x.1) (rw absent at h) in
        rw (sym same, path_exists-absent m.layout.owners_path d absent) refl
  ]
  leave-member m (o ∷ owners) d d' h name =
      let (text, printed, put) = written_owners t m _ d d' h in
      rw (put, read_file-put_file m.layout.owners_path text d) (r.owners _ text printed name)

  release_owner-member :
      (m : VenvManager) (d d' : Disk)
      → release_owner t m d ≡ (ok tt, d')
      → (name : String)
      → is_member name (load_owners t m d')
        ≡ after_call (releases m) (λ o. is_member o (load_owners t m d)) name
  unfolding release_owner
  release_owner-member m d d' h name =
      elim (Bool-cases (is_member m.class_name (load_owners t m d))) [
        | inl there ↦
            leave-member m _ d d' (rw there at h) name ∙ is_member-without name m.class_name _
        | inr absent ↦
            let same = ap (λ x. x.1) (rw absent at h) in
            rw (sym same) (is_member-outside name m.class_name _ absent)
      ]

  run_call-member :
      (c : OwnerCall) (d d' : Disk)
      → run_call t c d ≡ (ok tt, d')
      → (name : String)
      → is_member name (load_owners t (caller c) d')
        ≡ after_call c (λ o. is_member o (load_owners t (caller c) d)) name
  run_call-member (registers m) d d' h name = register_owner-member m d d' h name
  run_call-member (releases m) d d' h name = release_owner-member m d d' h name

-- The callers have one registry file.
abbrev pub Shares : String → List OwnerCall → Type 0
Shares path [] = Unit
Shares path (c ∷ calls) = ((caller c).layout.owners_path ≡ path) × Shares path calls

abbrev pub owned_in : Tools → (path : String) → Disk → String → Bool
owned_in t path d name = is_member name (owners_in t.owners_of (read_file path d))

after_call-eq :
    (c : OwnerCall) (owned owned' : String → Bool)
    → ((name : String) → owned name ≡ owned' name)
    → (name : String) → after_call c owned name ≡ after_call c owned' name
after_call-eq (registers m) owned owned' same name = rw (same name) refl
after_call-eq (releases m) owned owned' same name = rw (same name) refl

run_calls-owned :
    (t : Tools)
    → Reliable t
    → (path : String) (calls : List OwnerCall) → Shares path calls
    → (d d' : Disk) → run_calls t calls d ≡ (ok tt, d')
    → (owned : String → Bool) → ((name : String) → owned_in t path d name ≡ owned name)
    → (name : String) → owned_in t path d' name ≡ after_calls calls owned name
unfolding load_owners
run_calls-owned t r path [] one d d' h owned start name = rw (sym (ap (λ x. x.1) h)) (start name)
run_calls-owned t r path (c ∷ calls) (here, one) d d' h owned start name =
    let (done, d₁, called, rest) = go_on-eq-ok (run_call t c d) _ h in
    run_calls-owned t r path calls one d₁ d' rest (after_call c owned)
      (λ o.
        subst (λ p. owned_in t p d₁ o ≡ after_call c (owned_in t p d) o) here
          (run_call-member t r c d d₁ called o)
        ∙ after_call-eq c _ owned start o)
      name

-- The registry implements a set of names: after calls of plugins that share it, each of which succeeds, it holds
-- a plugin exactly if the set that they are put in and taken out of does, with which it began.
pub run_calls-refines :
    (t : Tools)
    → Reliable t
    → (path : String) (calls : List OwnerCall) → Shares path calls
    → (d d' : Disk) → run_calls t calls d ≡ (ok tt, d')
    → (name : String) → owned_in t path d' name ≡ after_calls calls (owned_in t path d) name
run_calls-refines t r path calls one d d' h name =
    run_calls-owned t r path calls one d d' h (owned_in t path d) (λ o. refl) name
