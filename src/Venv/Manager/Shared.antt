-- ===== src/Venv/Manager/Shared.antt =====
-- An environment that plugins share, in crates/cpex-hosts-python/src/venv.rs: what `ensure` of one plugin
-- leaves of it to another.
use cpex.Prelude.{
  ◌≡◌, refl, ◌∙◌, ap, Bool, true, false, ◌||◌, ℕ, String, Option, none, some, ◌==◌, or_false,
  Bool-cases, inl, inr,
}
use cpex.Result.{ok}
use cpex.Venv.{valid, is_valid, python_executable}
use cpex.Venv.FileSystem.{Disk, Io, path_exists, is_within, delete_tree, make_dir}
use cpex.Venv.FileSystem.Frame.{
  Frame, Touches, Touches-pure, Touches-bind, Touches-weaken, Touches-perform, Frame-weaken,
  make_dir-Frame, delete_tree-Frame,
}
use cpex.Venv.Tools.{VenvManager, Tools, Command}
use cpex.Venv.Manager.{
  EnsureOutcome, cache_verdict, create_dir_all, register_owner, save_metadata, prepare_directories,
  clear_venv, create_venv, create_unless, install_requirements, install_from, rebuild, in_place,
  ensure, current_metadata,
}
use cpex.Venv.Manager.Steps.{register_owner-Touches, save_metadata-Touches}
use cpex.Venv.Manager.Stays.{SparesInputs, cache_verdict-Frame, cache_verdict-exists}
use cpex.Venv.Manager.Ensure.{Reliable, Separate, ensure-reused}

-- While another plugin owns the environment that stands, `ensure` neither removes it nor makes it anew: it does the
-- same whatever `python3 -m venv` does and whatever the removal of a directory answers.
pub ensure-in_place :
    (t : Tools) (m : VenvManager) (d : Disk) (make_venv : String → Disk → Command × Disk)
    (remove_dir_error : String → Disk → Option String)
    → in_place t m d ≡ true
    → ensure
        (record t {
          make_venv = make_venv;
          faults = record t.faults { remove_dir_error = remove_dir_error };
        })
        m
        d
      ≡ ensure t m d
unfolding ensure rebuild prepare_directories clear_venv create_unless cache_verdict register_owner
    save_metadata install_requirements current_metadata
ensure-in_place t m d make_venv remove_dir_error h = rw h refl

-- The files of an environment and those that its manager writes.
abbrev pub footprint : VenvManager → String → Bool
footprint m p =
    is_within m.layout.venv_path p || (p == m.layout.owners_path || p == m.layout.metadata_path)

-- `python3 -m venv` and pip write to the environment alone.
pub record Contained (t : Tools) (venv : String) : Type 0 where
  pub makes :
      (d d' : Disk) (c : Command) → t.make_venv venv d ≡ (c, d') → Frame (is_within venv) d d'
  pub installs :
      (python requirements : String) (timeout_secs : ℕ) (d d' : Disk) (c : Command)
      → t.pip_install python requirements timeout_secs d ≡ (c, d')
      → Frame (is_within venv) d d'

module _ (t : Tools) (m : VenvManager) (inside : Contained t m.layout.venv_path) where
  install_from-Touches :
      (requirements : Option String)
      → Touches (is_within m.layout.venv_path) (install_from t m requirements)
  unfolding install_from
  install_from-Touches none d d' b h = Touches-pure _ false d d' b h
  install_from-Touches (some path) d d' b h = elim (Bool-cases (path_exists path d)) [
    | inr absent ↦ Touches-pure _ false d d' b (rw absent at h)
    | inl found ↦ inside.installs (python_executable m.layout) path m.pip_timeout_secs d d' _ (
        ap (λ x. ((t.pip_install (python_executable m.layout) path m.pip_timeout_secs d).0, x.1))
          (rw found at h))
  ]

  create_unless-Touches : (b : Bool) → Touches (is_within m.layout.venv_path) (create_unless t b m)
  unfolding create_unless create_venv
  create_unless-Touches true d d' done h = Touches-pure _ tt d d' done h
  create_unless-Touches false d d' done h =
      inside.makes d d' _ (ap (λ x. ((t.make_venv m.layout.venv_path d).0, x.1)) h)

  create_dir_all-Touches :
      (touched : String → Bool) (what path : String) → Touches touched (create_dir_all t what path)
  unfolding create_dir_all
  create_dir_all-Touches touched what path =
      Touches-perform touched (t.faults.create_error path) _ (make_dir path)
        (λ d. Frame-weaken (λ p u. refl) (make_dir-Frame path d))

  clear_venv-Touches : (b : Bool) → Touches (is_within m.layout.venv_path) (clear_venv t m b)
  unfolding clear_venv
  clear_venv-Touches true d d' done h = Touches-pure _ tt d d' done h
  clear_venv-Touches false d d' done h = elim (Bool-cases (path_exists m.layout.venv_path d)) [
    | inr absent ↦ Touches-pure _ tt d d' done (rw absent at h)
    | inl found ↦
        Touches-perform _ (t.faults.remove_dir_error m.layout.venv_path) _
          (delete_tree m.layout.venv_path) (delete_tree-Frame m.layout.venv_path) d d' done
          (rw found at h)
  ]

  prepare_directories-Touches :
      (b : Bool) → Touches (is_within m.layout.venv_path) (prepare_directories t m b)
  unfolding prepare_directories
  prepare_directories-Touches b =
      Touches-bind _ _ _ (create_dir_all-Touches _ _ _)
        (λ done. Touches-bind _ _ _ (create_dir_all-Touches _ _ _) (λ done. clear_venv-Touches b))

  to_footprint {ℓ} :
      {A : Type ℓ} {action : Io A}
      → Touches (is_within m.layout.venv_path) action
      → Touches (footprint m) action
  to_footprint tf = Touches-weaken (λ p u. (or_false _ _ u).0) tf

  owner-footprint : Touches (footprint m) (register_owner t m)
  owner-footprint =
      Touches-weaken (λ p u. (or_false _ _ (or_false _ _ u).1).0) (register_owner-Touches t m)

  metadata-footprint : Touches (footprint m) (save_metadata t m)
  metadata-footprint =
      Touches-weaken (λ p u. (or_false _ _ (or_false _ _ u).1).1) (save_metadata-Touches t m)

  rebuild-Touches : (b : Bool) → Touches (footprint m) (rebuild t m b)
  unfolding rebuild install_requirements
  rebuild-Touches b = Touches-bind _ _ _ (to_footprint (prepare_directories-Touches b)) (λ done₁.
      Touches-bind _ _ _ (to_footprint (create_unless-Touches b)) (λ done₂.
        Touches-bind _ _ _ (to_footprint (install_from-Touches m.requirements_file)) (λ installed.
          Touches-bind _ _ _ owner-footprint
            (λ done₃. Touches-bind _ _ _ metadata-footprint (λ done₄. Touches-pure _ _)))))

  ensure-Touches : Touches (footprint m) (ensure t m)
  unfolding ensure
  ensure-Touches d d' o h = elim (Bool-cases (is_valid (cache_verdict t m d))) [
    | inl good ↦ Touches-bind _ _ _ owner-footprint (λ done. Touches-pure _ _) d d' o (rw good at h)
    | inr bad ↦ rebuild-Touches (in_place t m d) d d' o (rw bad at h)
  ]

-- If the cache of another plugin of the same environment is valid, a successful `ensure` leaves it valid, also
-- where it removed the environment and made it anew: the verdict reads only files that this does not touch, so
-- that plugin goes on to reuse an environment into which its requirements were not installed again.
pub ensure-neighbour :
    (t : Tools)
    → Reliable t
    → (m n : VenvManager) → Separate m
    → Contained t m.layout.venv_path
    → n.layout.venv_path ≡ m.layout.venv_path
    → SparesInputs (footprint m) n
    → (d d' : Disk) (o : EnsureOutcome) → cache_verdict t n d ≡ valid
    → ensure t m d ≡ (ok o, d')
    → cache_verdict t n d' ≡ valid
ensure-neighbour t r m n apart inside same spared d d' o fresh h =
    cache_verdict-Frame t n spared (ensure-Touches t m inside d d' o h)
      (ap (λ p. path_exists p d') same
        ∙ cache_verdict-exists t m d' (ensure-reused t r m apart d d' o h).0)
      fresh
