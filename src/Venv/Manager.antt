-- ===== src/Venv/Manager.antt =====
-- `VenvManager` of crates/cpex-hosts-python/src/venv.rs: building a virtual environment or using the
-- one that is there, and the registry of the plugins that share it.
pub mod Steps
pub mod Stays
pub mod Ensure
pub mod Shared
pub mod Owners
pub mod Samples
mod Tests
use Prim.Native.String.{◌++◌}
use cpex.Prelude.{
  ℕ, zero, Bool, true, false, ◌&&◌, not, String, Option, none, some, List, [], ◌∷◌, any, filter,
  ◌==◌, if◌then◌else◌,
}
use cpex.Text.{starts_with}
use cpex.Json.{ℤ, pos, negsuc}
use cpex.HostError.{HostError, venv_build, venv_command, ProcessOutput, from_output, decimal}
use cpex.Result.{Result, ok, err, Serde, parsed, refused}
use cpex.Venv.{
  CacheMetadata, CacheVerdict, VenvLayout, evaluate_cache, hash_file_or_empty, is_valid,
  python_executable, resolve,
}
use cpex.Venv.Tools.{VenvManager, Command, Tools, not_run, not_awaited, timed_out, exited}
use cpex.Venv.FileSystem.{
  Disk, Faults, Io, ◌>>=◌, ◌>>◌, go_on, pure, fail, perform, join, path_exists, read_file, put_file,
  delete_file, make_dir, delete_tree,
}

pub data EnsureOutcome : Type 0 where
  reused : EnsureOutcome
  built : (installed_requirements : Bool) → EnsureOutcome
  shared_update : (installed_requirements : Bool) → EnsureOutcome

-- The members of a `BTreeSet`.
abbrev pub is_member : String → List String → Bool
is_member name owners = any (λ o. o == name) owners

abbrev pub has_other_owner : String → List String → Bool
has_other_owner class_name owners = any (λ o. not (o == class_name)) owners

abbrev pub or_no_owners : Serde (List String) → List String
or_no_owners (parsed owners) = owners
or_no_owners (refused e) = []

abbrev pub owners_in : (String → Serde (List String)) → Option String → List String
owners_in parse none = []
owners_in parse (some raw) = or_no_owners (parse raw)

module _ (t : Tools) where
  unfoldable pub load_owners : VenvManager → Disk → List String
  load_owners m d = owners_in t.owners_of (read_file m.layout.owners_path d)

  unfoldable pub cache_verdict : VenvManager → Disk → CacheVerdict
  cache_verdict m d =
      evaluate_cache t.metadata_of m.layout.venv_path m.layout.metadata_path
        (hash_file_or_empty t.sha256 m.requirements_file d) m.manifest_version
        (some (hash_file_or_empty t.sha256 (some m.layout.manifest_path) d)) d

  unfoldable pub create_dir_all : String → String → Io (Unit {0})
  create_dir_all what path d =
      perform (t.faults.create_error path d)
        (λ e. venv_build ("could not create " ++ (what ++ (" dir " ++ (path ++ (": " ++ e))))))
        (make_dir path) d

  unfoldable pub write_file : String → String → String → Io (Unit {0})
  write_file what path text d =
      perform (t.faults.write_error path d)
        (λ e. venv_build ("could not write " ++ (what ++ (" " ++ (path ++ (": " ++ e))))))
        (put_file path text) d

  pub write_owners_text : VenvManager → Serde String → Io (Unit {0})
  write_owners_text m (refused e) =
      fail (venv_build ("could not serialize the venv owner registry: " ++ e))
  write_owners_text m (parsed text) = write_file "venv owners" m.layout.owners_path text

  unfoldable pub register_owner : VenvManager → Io (Unit {0})
  unfolding load_owners write_owners_text create_dir_all write_file
  register_owner m d =
      let owners = load_owners m d in
      if is_member m.class_name owners
      then pure tt d
      else (do
        create_dir_all "cache" m.layout.cache_dir
        write_owners_text m (t.owners_text (m.class_name ∷ owners)))
          d

  leave : VenvManager → List String → Io (Unit {0})
  leave m [] d =
      if path_exists m.layout.owners_path d
      then perform (t.faults.remove_file_error m.layout.owners_path d)
          (λ e.
            venv_build ("could not remove venv owners " ++ (m.layout.owners_path ++ (": " ++ e))))
          (delete_file m.layout.owners_path) d
      else pure tt d
  leave m (o ∷ owners) d = write_owners_text m (t.owners_text (o ∷ owners)) d

  unfoldable pub release_owner : VenvManager → Io (Unit {0})
  unfolding load_owners write_owners_text write_file leave
  release_owner m d =
      let owners = load_owners m d in
      if not (is_member m.class_name owners)
      then pure tt d
      else leave m (filter (λ o. not (o == m.class_name)) owners) d

  clear_venv : VenvManager → Bool → Io (Unit {0})
  clear_venv m update_in_place d =
      if not update_in_place && path_exists m.layout.venv_path d
      then perform (t.faults.remove_dir_error m.layout.venv_path d)
          (λ e. venv_build ("could not remove stale venv " ++ (m.layout.venv_path ++ (": " ++ e))))
          (delete_tree m.layout.venv_path) d
      else pure tt d

  unfoldable pub prepare_directories : VenvManager → (update_in_place : Bool) → Io (Unit {0})
  unfolding create_dir_all clear_venv
  prepare_directories m update_in_place = do
    create_dir_all "plugin" m.layout.plugin_path
    create_dir_all "cache" m.layout.cache_dir
    clear_venv m update_in_place

  is_success : Option ℤ → Bool
  is_success (some (pos zero)) = true
  is_success _ = false

  venv_ended : VenvManager → Command → Result (Unit {0})
  unfolding is_success
  venv_ended m (exited status stderr) =
      if is_success status
      then ok tt
      else err
          (venv_command "python3 -m venv" m.layout.venv_path (from_output t.decode status stderr))
  venv_ended m (not_run e) =
      err (venv_build ("could not run `python3 -m venv`: " ++ (e ++ " (is python3 on PATH?)")))
  venv_ended m (not_awaited e) =
      err (venv_build ("could not run `python3 -m venv`: " ++ (e ++ " (is python3 on PATH?)")))
  venv_ended m timed_out =
      err (venv_build "could not run `python3 -m venv`: timed out (is python3 on PATH?)")

  unfoldable pub create_venv : VenvManager → Io (Unit {0})
  unfolding venv_ended
  create_venv m d = let (ended, d') = t.make_venv m.layout.venv_path d in (venv_ended m ended, d')

  pip_ended : VenvManager → String → Command → Result Bool
  unfolding is_success
  pip_ended m requirements (not_run e) =
      err (venv_build ("could not run pip in " ++ (python_executable m.layout ++ (": " ++ e))))
  pip_ended m requirements (not_awaited e) =
      err (venv_build ("could not wait on pip in " ++ (python_executable m.layout ++ (": " ++ e))))
  pip_ended m requirements timed_out = err (
      venv_build (
        "pip install -r "
        ++ (requirements
            ++ (" exceeded the "
                ++ (decimal m.pip_timeout_secs
                    ++ "s timeout and was killed — check network reachability to the package index, or raise the pip timeout")))))
  pip_ended m requirements (exited status stderr) =
      if is_success status
      then ok true
      else err (venv_command "pip install" requirements (from_output t.decode status stderr))

  install_from : VenvManager → Option String → Io Bool
  unfolding pip_ended
  install_from m none d = (ok false, d)
  install_from m (some requirements) d =
      if not (path_exists requirements d)
      then (ok false, d)
      else (let (ended, d') =
            t.pip_install (python_executable m.layout) requirements m.pip_timeout_secs d in
          (pip_ended m requirements ended, d'))

  unfoldable pub install_requirements : VenvManager → Io Bool
  unfolding install_from
  install_requirements m = install_from m m.requirements_file

  existing : Option String → Disk → Option String
  existing none d = none
  existing (some path) d = if path_exists path d then some path else none

  unfoldable pub current_metadata : VenvManager → Disk → CacheMetadata
  unfolding existing
  current_metadata m d = record {
    venv_path = m.layout.venv_path;
    requirements_file = existing m.requirements_file d;
    requirements_hash = hash_file_or_empty t.sha256 m.requirements_file d;
    manifest_version = m.manifest_version;
    manifest_hash = some (hash_file_or_empty t.sha256 (some m.layout.manifest_path) d);
    python_version = none;
  }

  write_metadata_text : VenvManager → Serde String → Io (Unit {0})
  write_metadata_text m (refused e) =
      fail (venv_build ("could not serialize cache metadata: " ++ e))
  write_metadata_text m (parsed text) = write_file "cache metadata" m.layout.metadata_path text

  unfoldable pub save_metadata : VenvManager → Io (Unit {0})
  unfolding write_metadata_text write_file
  save_metadata m d = write_metadata_text m (t.metadata_text (current_metadata m d)) d

  unfoldable pub create_unless : Bool → VenvManager → Io (Unit {0})
  create_unless true m = pure tt
  create_unless false m = create_venv m

  abbrev outcome_for : Bool → Bool → EnsureOutcome
  outcome_for true installed = shared_update installed
  outcome_for false installed = built installed

  -- The part of `ensure` behind a cache that cannot be used.
  unfoldable pub rebuild : VenvManager → (update_in_place : Bool) → Io EnsureOutcome
  unfolding create_unless
  rebuild m update_in_place = do
    prepare_directories m update_in_place
    create_unless update_in_place m
    installed ← install_requirements m
    register_owner m
    save_metadata m
    pure (outcome_for update_in_place installed)

  -- Only where no other plugin owns the environment is it made anew.
  abbrev pub in_place : VenvManager → Disk → Bool
  in_place m d = has_other_owner m.class_name (load_owners m d) && path_exists m.layout.venv_path d

  unfoldable pub ensure : VenvManager → Io EnsureOutcome
  ensure m d =
      if is_valid (cache_verdict m d)
      then (do register_owner m; pure reused) d
      else rebuild m (in_place m d) d
