-- ===== src/Venv/Manager/Ensure.antt =====
-- `ensure` in crates/cpex-hosts-python/src/venv.rs: what it leaves where it succeeds.
use cpex.Prelude.{
  ◌≡◌, refl, ◌∙◌, ap, Bool, true, false, ℕ, zero, suc, String, Option, none, some, List, ◌==◌,
  arith, eq_iff, Bool-cases, inl, inr,
}
use cpex.Json.{pos, negsuc}
use cpex.Result.{ok, parsed}
use cpex.Venv.{
  CacheMetadata, CacheVerdict, valid, venv_missing, metadata_missing, metadata_unreadable,
  requirements_changed, manifest_version_changed, manifest_hash_changed, is_valid,
  python_executable,
}
use cpex.Venv.FileSystem.{Disk, path_exists}
use cpex.Venv.FileSystem.Frame.{Frame, go_on-eq-ok, read_file-put_file}
use cpex.Venv.FileSystem.Keeps.{Keeps, Keeps-pure, Keeps-bind}
use cpex.Venv.Tools.{VenvManager, Tools, Command, exited, not_run, not_awaited, timed_out}
use cpex.Venv.Manager.{
  EnsureOutcome, reused, is_member, owners_in, load_owners, cache_verdict, register_owner,
  save_metadata, prepare_directories, clear_venv, create_venv, venv_ended, is_success,
  create_unless, install_requirements, install_from, rebuild, in_place, ensure,
}
use cpex.Venv.Manager.Steps.{
  create_dir_all-Keeps, register_owner-Keeps, register_owner-eq-ok, register_owner-Touches,
  save_metadata-Touches,
}
use cpex.Venv.Manager.Stays.{
  Spares, SparesInputs, cache_verdict-Frame, cache_verdict-exists, save_metadata-valid,
}

-- The serializer reads what it wrote, up to the order of a set, `python3 -m venv` makes the
-- environment it reports, and pip does not take one away.
pub record Reliable (t : Tools) : Type 0 where
  pub metadata :
      (x : CacheMetadata) (text : String)
      → t.metadata_text x ≡ parsed text
      → t.metadata_of text ≡ parsed x
  pub owners :
      (names : List String) (text : String)
      → t.owners_text names ≡ parsed text
      → (name : String) → is_member name (owners_in t.owners_of (some text)) ≡ is_member name names
  pub makes :
      (path : String) (d d' : Disk) (stderr : List ℕ)
      → t.make_venv path d ≡ (exited (some (pos 0)) stderr, d')
      → path_exists path d' ≡ true
  pub installs :
      (path python requirements : String) (timeout_secs : ℕ) (d d' : Disk) (c : Command)
      → t.pip_install python requirements timeout_secs d ≡ (c, d')
      → path_exists path d ≡ true
      → path_exists path d' ≡ true

-- The files that the manager writes are none that it compares, and not one file.
pub record Separate (m : VenvManager) : Type 0 where
  pub metadata_manifest : (m.layout.manifest_path == m.layout.metadata_path) ≡ false
  pub metadata_requirements : Spares (λ p. p == m.layout.metadata_path) m.requirements_file
  pub metadata_owners : (m.layout.owners_path == m.layout.metadata_path) ≡ false
  pub owners : SparesInputs (λ p. p == m.layout.owners_path) m

is_valid-eq : (v : CacheVerdict) → is_valid v ≡ true → v ≡ valid
unfolding is_valid
is_valid-eq valid h = refl
is_valid-eq venv_missing h = cc
is_valid-eq metadata_missing h = cc
is_valid-eq metadata_unreadable h = cc
is_valid-eq requirements_changed h = cc
is_valid-eq manifest_version_changed h = cc
is_valid-eq manifest_hash_changed h = cc

module _ (t : Tools) (r : Reliable t) (m : VenvManager) where
  venv_ended-eq-ok :
      (c : Command)
      → venv_ended t m c ≡ ok tt
      → (stderr : List ℕ) × (c ≡ exited (some (pos 0)) stderr)
  unfolding venv_ended is_success
  venv_ended-eq-ok (exited none stderr) h = cc
  venv_ended-eq-ok (exited (some (negsuc n)) stderr) h = cc
  venv_ended-eq-ok (exited (some (pos zero)) stderr) h = (stderr, refl)
  venv_ended-eq-ok (exited (some (pos (suc n))) stderr) h = cc
  venv_ended-eq-ok (not_run e) h = cc
  venv_ended-eq-ok (not_awaited e) h = cc
  venv_ended-eq-ok timed_out h = cc

  create_venv-exists :
      (d d' : Disk) → create_venv t m d ≡ (ok tt, d') → path_exists m.layout.venv_path d' ≡ true
  unfolding create_venv
  create_venv-exists d d' h =
      let (stderr, e) = venv_ended-eq-ok (t.make_venv m.layout.venv_path d).0 (ap (λ x. x.0) h) in
      r.makes m.layout.venv_path d d' stderr (
        ap (λ c. (c, (t.make_venv m.layout.venv_path d).1)) e
        ∙ ap (λ x. (exited (some (pos 0)) stderr, x.1)) h)

  install_from-Keeps :
      (requirements : Option String) → Keeps m.layout.venv_path (install_from t m requirements)
  unfolding install_from
  install_from-Keeps none d d' b h there = cc
  install_from-Keeps (some path) d d' b h there = elim (Bool-cases (path_exists path d)) [
    | inr absent ↦ let same = rw absent at h in cc
    | inl found ↦
        r.installs m.layout.venv_path (python_executable m.layout) path m.pip_timeout_secs d d' _
          (ap (λ x. ((t.pip_install (python_executable m.layout) path m.pip_timeout_secs d).0, x.1))
            (rw found at h))
          there
  ]

  install_requirements-Keeps : Keeps m.layout.venv_path (install_requirements t m)
  unfolding install_requirements
  install_requirements-Keeps = install_from-Keeps m.requirements_file

  prepare_directories-Keeps : Keeps m.layout.venv_path (prepare_directories t m true)
  unfolding prepare_directories clear_venv
  prepare_directories-Keeps =
      Keeps-bind _ _ _ (create_dir_all-Keeps t _ _ _)
        (λ done. Keeps-bind _ _ _ (create_dir_all-Keeps t _ _ _) (λ done. Keeps-pure _ tt))

  is_member-register_owner :
      (d d' : Disk)
      → register_owner t m d ≡ (ok tt, d')
      → is_member m.class_name (load_owners t m d') ≡ true
  unfolding load_owners
  is_member-register_owner d d' h = elim (register_owner-eq-ok t m d d' h) [
    | inl (there, same) ↦ rw same there
    | inr (text, printed, put) ↦
        rw
          (
            put,
            read_file-put_file m.layout.owners_path text _,
            r.owners _ text printed m.class_name,
          )
          (ground (arith, eq_iff m.class_name m.class_name))
  ]

  create_unless-Keeps :
      (b : Bool) (d d₁ d₂ : Disk)
      → (b ≡ true → path_exists m.layout.venv_path d ≡ true)
      → prepare_directories t m b d ≡ (ok tt, d₁)
      → create_unless t b m d₁ ≡ (ok tt, d₂)
      → path_exists m.layout.venv_path d₂ ≡ true
  unfolding create_unless
  create_unless-Keeps true d d₁ d₂ there prepared created =
      Keeps-pure m.layout.venv_path tt d₁ d₂ tt created
        (prepare_directories-Keeps d d₁ tt prepared (there refl))
  create_unless-Keeps false d d₁ d₂ there prepared created = create_venv-exists d₁ d₂ created

  -- The disks between the steps of a successful rebuild.
  rebuild-eq-ok :
      (b : Bool) (d d' : Disk) (o : EnsureOutcome)
      → (b ≡ true → path_exists m.layout.venv_path d ≡ true)
      → rebuild t m b d ≡ (ok o, d')
      → (d₃ d₄ : Disk) × (path_exists m.layout.venv_path d₄ ≡ true)
        × (register_owner t m d₃ ≡ (ok tt, d₄))
        × (save_metadata t m d₄ ≡ (ok tt, d'))
  unfolding rebuild
  rebuild-eq-ok b d d' o there h =
      let (done₁, d₁, prepared, h₁) = go_on-eq-ok (prepare_directories t m b d) _ h in
      let (done₂, d₂, created, h₂) = go_on-eq-ok (create_unless t b m d₁) _ h₁ in
      let (installed, d₃, pip, h₃) = go_on-eq-ok (install_requirements t m d₂) _ h₂ in
      let (done₄, d₄, registered, h₄) = go_on-eq-ok (register_owner t m d₃) _ h₃ in
      let (done₅, d₅, saved, h₅) = go_on-eq-ok (save_metadata t m d₄) _ h₄ in
      let stands = create_unless-Keeps b d d₁ d₂ there prepared created in
      (
        d₃,
        d₄,
        register_owner-Keeps t m.layout.venv_path m d₃ d₄ done₄ registered
            (install_requirements-Keeps d₂ d₃ installed pip stands),
        registered,
        saved ∙ ap (λ x. (ok tt, x.1)) h₅,
      )

  in_place-exists : (d : Disk) → in_place t m d ≡ true → path_exists m.layout.venv_path d ≡ true
  in_place-exists d h = ground arith

  load_owners-Frame :
      {touched : String → Bool} {d d' : Disk}
      → touched m.layout.owners_path ≡ false
      → Frame touched d d'
      → load_owners t m d' ≡ load_owners t m d
  unfolding load_owners
  load_owners-Frame apart f = ap (owners_in t.owners_of) (f.files _ apart)

  -- A success leaves a valid cache and a registered owner.
  ensure-settled :
      Separate m
      → (d d' : Disk) (o : EnsureOutcome) → ensure t m d ≡ (ok o, d')
      → (cache_verdict t m d' ≡ valid) × (is_member m.class_name (load_owners t m d') ≡ true)
  unfolding ensure
  ensure-settled apart d d' o h = elim (Bool-cases (is_valid (cache_verdict t m d))) [
    | inl good ↦
        let (done, d₁, registered, h₁) = go_on-eq-ok (register_owner t m d) _ (rw good at h) in
        let now = registered ∙ ap (λ x. (ok tt, x.1)) h₁ in
        let fresh = is_valid-eq (cache_verdict t m d) good in
        (
          cache_verdict-Frame t m apart.owners (register_owner-Touches t m d d' tt now)
              (register_owner-Keeps t _ m d d' tt now (cache_verdict-exists t m d fresh)) fresh,
          is_member-register_owner d d' now,
        )
    | inr bad ↦
        let (d₃, d₄, stands, registered, saved) =
          rebuild-eq-ok (in_place t m d) d d' o (in_place-exists d) (rw bad at h) in
        (
          save_metadata-valid t m d₄ d' r.metadata apart.metadata_manifest
              apart.metadata_requirements stands saved,
          ap (is_member m.class_name)
                (load_owners-Frame apart.metadata_owners (save_metadata-Touches t m d₄ d' tt saved))
              ∙ is_member-register_owner d₃ d₄ registered,
        )
  ]

-- After an `ensure` that succeeds, whether it reused, rebuilt or updated the environment, the cache is valid, and
-- the next `ensure` reuses it and changes nothing. The serializers read what they write, `python3 -m venv` makes
-- what it reports and pip does not remove the environment, and the files that are written are apart.
pub ensure-reused :
    (t : Tools)
    → Reliable t
    → (m : VenvManager) → Separate m
    → (d d' : Disk) (o : EnsureOutcome) → ensure t m d ≡ (ok o, d')
    → (cache_verdict t m d' ≡ valid) × (ensure t m d' ≡ (ok reused, d'))
unfolding ensure is_valid register_owner
ensure-reused t r m apart d d' o h =
    let (good, mine) = ensure-settled t r m apart d d' o h in (good, rw (good, mine) refl)
