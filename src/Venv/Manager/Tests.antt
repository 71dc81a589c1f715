-- ===== src/Venv/Manager/Tests.antt =====
-- Runs of the manager of crates/cpex-hosts-python/src/venv.rs.
use cpex.Prelude.{◌≡◌, refl, true, none, some, List, [], ◌∷◌, lookup, insert, remove, ◌↔◌}
use cpex.Result.{ok}
use cpex.Text.{starts_with}
use cpex.Venv.{valid, evaluate_cache, hash_file_or_empty, is_valid, python_executable}
use cpex.Venv.Cache.{IsUsable, evaluate_cache_lem}
use cpex.Venv.FileSystem.{
  Disk, is_within, is_dir, read_file, path_exists, put_file, delete_file, make_dir, delete_tree,
}
use cpex.Venv.Tools.{exited}
use cpex.Venv.Manager.{
  reused, built, load_owners, cache_verdict, register_owner, release_owner, prepare_directories,
  create_venv, install_requirements, current_metadata, save_metadata, create_unless, rebuild,
  ensure,
}
use cpex.Venv.Manager.Ensure.{ensure-reused}
use cpex.Venv.Manager.Shared.{ensure-in_place, ensure-neighbour}
use cpex.Venv.Manager.Owners.{
  OwnerCall, registers, releases, run_calls, owned_in, after_calls, run_calls-refines,
}
use cpex.Venv.Manager.Samples.{
  first, second, tools, tools-Reliable, first-Separate, tools-Contained, second-spared, sources,
}

-- The first plugin alone: its environment is built.
abbrev alone : Disk
alone = (ensure tools first sources).1

ensure-built : ensure tools first sources ≡ (ok (built true), alone)
unfolding ensure is_valid cache_verdict evaluate_cache hash_file_or_empty path_exists is_dir
    read_file lookup insert remove rebuild prepare_directories load_owners make_dir put_file
    delete_file delete_tree is_within starts_with create_venv create_unless install_requirements
    register_owner release_owner save_metadata current_metadata python_executable
ensure-built = refl

evaluate_cache_lem_example :
    (evaluate_cache tools.metadata_of "/p/demo/.venv"
        "/p/demo/.cpex/venv_cache/demo.A_metadata.json" "numpy"
        (some "1")
        (some "a")
        alone
      ≡ valid)
    ↔ IsUsable tools.metadata_of "/p/demo/.venv" "/p/demo/.cpex/venv_cache/demo.A_metadata.json"
        "numpy"
        (some "1")
        (some "a")
        alone
evaluate_cache_lem_example =
    evaluate_cache_lem tools.metadata_of "/p/demo/.venv"
      "/p/demo/.cpex/venv_cache/demo.A_metadata.json" "numpy" (some "1") (some "a") alone

ensure-reused_example :
    (cache_verdict tools first alone ≡ valid) × (ensure tools first alone ≡ (ok reused, alone))
ensure-reused_example =
    ensure-reused tools tools-Reliable first first-Separate sources alone (built true) ensure-built

-- The second plugin comes to the environment of the first.
ensure-in_place_example :
    ensure
      (record tools {
        make_venv = λ path d. (exited none [], d);
        faults = record tools.faults { remove_dir_error = λ path d. some "busy" };
      })
      second
      alone
    ≡ ensure tools second alone
unfolding ensure is_valid cache_verdict evaluate_cache hash_file_or_empty path_exists is_dir
    read_file lookup insert remove rebuild prepare_directories load_owners make_dir put_file
    delete_file delete_tree is_within starts_with create_venv create_unless install_requirements
    register_owner release_owner save_metadata current_metadata python_executable
ensure-in_place_example =
    ensure-in_place tools second alone (λ path d. (exited none [], d)) (λ path d. some "busy") refl

-- The second plugin built its environment and was shut down, before the first comes.
abbrev left_by_second : Disk
left_by_second = (release_owner tools second (ensure tools second sources).1).1

-- The first plugin removes the environment and makes it anew.
abbrev taken : Disk
taken = (ensure tools first left_by_second).1

ensure-neighbour_example : cache_verdict tools second taken ≡ valid
unfolding ensure is_valid cache_verdict evaluate_cache hash_file_or_empty path_exists is_dir
    read_file lookup insert remove rebuild prepare_directories load_owners make_dir put_file
    delete_file delete_tree is_within starts_with create_venv create_unless install_requirements
    register_owner release_owner save_metadata current_metadata python_executable
ensure-neighbour_example =
    ensure-neighbour tools tools-Reliable first second first-Separate tools-Contained refl
      second-spared left_by_second taken (built true) refl refl

-- What pip installed is the requirements of the first plugin.
installed : read_file "/p/demo/.venv/lib" taken ≡ some "/p/demo/a.txt"
unfolding ensure is_valid cache_verdict evaluate_cache hash_file_or_empty path_exists is_dir
    read_file lookup insert remove rebuild prepare_directories load_owners make_dir put_file
    delete_file delete_tree is_within starts_with create_venv create_unless install_requirements
    register_owner release_owner save_metadata current_metadata python_executable
installed = refl

abbrev calls : List OwnerCall
calls = registers first ∷ registers second ∷ releases first ∷ []

abbrev called : Disk
called = (run_calls tools calls sources).1

run_calls-refines_example :
    owned_in tools first.layout.owners_path called "demo.B"
    ≡ after_calls calls (owned_in tools first.layout.owners_path sources) "demo.B"
unfolding register_owner read_file lookup put_file insert make_dir release_owner
run_calls-refines_example =
    run_calls-refines tools tools-Reliable first.layout.owners_path calls (refl, (refl, (refl, tt)))
      sources called refl "demo.B"
