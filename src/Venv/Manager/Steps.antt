-- ===== src/Venv/Manager/Steps.antt =====
-- The steps of `VenvManager` in crates/cpex-hosts-python/src/venv.rs: what each leaves behind.
use cpex.Prelude.{◌≡◌, refl, ◌∙◌, ap, true, String, ◌⊎◌, ◌∷◌, ◌==◌, Bool-cases, inl, inr}
use cpex.Result.{ok, Serde, parsed, refused}
use cpex.Venv.FileSystem.{Disk, put_file, make_dir}
use cpex.Venv.FileSystem.Frame.{
  Touches, Frame-refl, Frame-trans, Frame-weaken, put_file-Frame, make_dir-Frame, go_on-eq-ok,
  perform-eq-ok, path_exists-put_file, path_exists-make_dir,
}
use cpex.Venv.FileSystem.Keeps.{Keeps, Keeps-pure, Keeps-fail, Keeps-bind, Keeps-perform}
use cpex.Venv.Tools.{VenvManager, Tools}
use cpex.Venv.Manager.{
  is_member, load_owners, create_dir_all, write_file, write_owners_text, register_owner,
  current_metadata, write_metadata_text, save_metadata,
}

module _ (t : Tools) where
  pub create_dir_all-Keeps : (p what path : String) → Keeps p (create_dir_all t what path)
  unfolding create_dir_all
  create_dir_all-Keeps p what path =
      Keeps-perform p (t.faults.create_error path) _ (make_dir path) (path_exists-make_dir p path)

  pub write_file-Keeps : (p what path text : String) → Keeps p (write_file t what path text)
  unfolding write_file
  write_file-Keeps p what path text =
      Keeps-perform p (t.faults.write_error path) _ (put_file path text)
        (path_exists-put_file p path text)

  write_owners_text-Keeps :
      (p : String) (m : VenvManager) (s : Serde String) → Keeps p (write_owners_text t m s)
  unfolding write_owners_text
  write_owners_text-Keeps p m (refused e) = Keeps-fail p _
  write_owners_text-Keeps p m (parsed text) = write_file-Keeps p _ _ text

  pub register_owner-Keeps : (p : String) (m : VenvManager) → Keeps p (register_owner t m)
  unfolding register_owner
  register_owner-Keeps p m d d' a h =
      elim (Bool-cases (is_member m.class_name (load_owners t m d))) [
        | inl there ↦ Keeps-pure p tt d d' a (rw there at h)
        | inr absent ↦
            Keeps-bind p _ _ (create_dir_all-Keeps p _ _) (λ done. write_owners_text-Keeps p m _) d
              d' a (rw absent at h)
      ]

  write_metadata_text-Keeps :
      (p : String) (m : VenvManager) (s : Serde String) → Keeps p (write_metadata_text t m s)
  unfolding write_metadata_text
  write_metadata_text-Keeps p m (refused e) = Keeps-fail p _
  write_metadata_text-Keeps p m (parsed text) = write_file-Keeps p _ _ text

  pub save_metadata-Keeps : (p : String) (m : VenvManager) → Keeps p (save_metadata t m)
  unfolding save_metadata
  save_metadata-Keeps p m d = write_metadata_text-Keeps p m _ d

  pub create_dir_all-eq-ok :
      (what path : String) (d d' : Disk)
      → create_dir_all t what path d ≡ (ok tt, d')
      → d' ≡ make_dir path d
  unfolding create_dir_all
  create_dir_all-eq-ok what path d d' h = perform-eq-ok _ _ (make_dir path) d d' h

  pub write_file-eq-ok :
      (what path text : String) (d d' : Disk)
      → write_file t what path text d ≡ (ok tt, d')
      → d' ≡ put_file path text d
  unfolding write_file
  write_file-eq-ok what path text d d' h = perform-eq-ok _ _ (put_file path text) d d' h

  pub written_owners :
      (m : VenvManager) (s : Serde String) (d d' : Disk)
      → write_owners_text t m s d ≡ (ok tt, d')
      → (text : String) × (s ≡ parsed text) × (d' ≡ put_file m.layout.owners_path text d)
  unfolding write_owners_text
  written_owners m (refused e) d d' h = cc
  written_owners m (parsed text) d d' h =
      (text, refl, write_file-eq-ok _ m.layout.owners_path text d d' h)

  -- A plugin that is registered was there, or the registry was written with it.
  pub register_owner-eq-ok :
      (m : VenvManager) (d d' : Disk)
      → register_owner t m d ≡ (ok tt, d')
      → ((is_member m.class_name (load_owners t m d) ≡ true) × (d' ≡ d))
        ⊎ ((text : String) × (t.owners_text (m.class_name ∷ load_owners t m d) ≡ parsed text)
            × (d' ≡ put_file m.layout.owners_path text (make_dir m.layout.cache_dir d)))
  unfolding register_owner
  register_owner-eq-ok m d d' h = elim (Bool-cases (is_member m.class_name (load_owners t m d))) [
    | inl there ↦ let same = rw there at h in inl (there, cc)
    | inr absent ↦
        let (done, d₁, made, rest) = go_on-eq-ok _ _ (rw absent at h) in
        let (text, printed, put) = written_owners m _ d₁ d' rest in
        inr (
          text,
          printed,
          put ∙ ap (put_file m.layout.owners_path text) (create_dir_all-eq-ok _ _ d d₁ made),
        )
  ]

  pub register_owner-Touches :
      (m : VenvManager) → Touches (λ p. p == m.layout.owners_path) (register_owner t m)
  register_owner-Touches m d d' done h = elim (register_owner-eq-ok m d d' h) [
    | inl (there, same) ↦ rw same (Frame-refl _ d)
    | inr (text, printed, put) ↦ rw put (
        Frame-trans (Frame-weaken (λ p other. refl) (make_dir-Frame m.layout.cache_dir d))
          (put_file-Frame _ text _))
  ]

  written_metadata :
      (m : VenvManager) (s : Serde String) (d d' : Disk)
      → write_metadata_text t m s d ≡ (ok tt, d')
      → (text : String) × (s ≡ parsed text) × (d' ≡ put_file m.layout.metadata_path text d)
  unfolding write_metadata_text
  written_metadata m (refused e) d d' h = cc
  written_metadata m (parsed text) d d' h =
      (text, refl, write_file-eq-ok _ m.layout.metadata_path text d d' h)

  pub save_metadata-eq-ok :
      (m : VenvManager) (d d' : Disk)
      → save_metadata t m d ≡ (ok tt, d')
      → (text : String) × (t.metadata_text (current_metadata t m d) ≡ parsed text)
        × (d' ≡ put_file m.layout.metadata_path text d)
  unfolding save_metadata
  save_metadata-eq-ok m d d' h = written_metadata m _ d d' h

  pub save_metadata-Touches :
      (m : VenvManager) → Touches (λ p. p == m.layout.metadata_path) (save_metadata t m)
  save_metadata-Touches m d d' done h =
      let (text, printed, put) = save_metadata-eq-ok m d d' h in rw put (put_file-Frame _ text d)
