-- ===== src/Plugin/Launch/Tests.antt =====
-- A worker to launch, for crates/cpex-hosts-python/src/plugin.rs.
use cpex.Prelude.{ℕ, ◌≡◌, refl, String, none, some, List, [], ◌∷◌, lookup, insert, remove}
use cpex.Result.{ok, Serde, refused}
use cpex.Text.{starts_with}
use cpex.Venv.{valid, evaluate_cache, hash_file_or_empty, is_valid, python_executable}
use cpex.Venv.FileSystem.{
  Disk, join, is_within, is_dir, read_file, path_exists, put_file, delete_file, make_dir,
  delete_tree,
}
use cpex.Venv.Manager.{
  load_owners, cache_verdict, register_owner, release_owner, prepare_directories, create_venv,
  install_requirements, current_metadata, save_metadata, create_unless, rebuild, ensure,
}
use cpex.Venv.Manager.Samples.{first, tools, tools-Reliable, first-Separate, sources}
use cpex.Worker.Sending.{resolve_worker_script}
use cpex.Plugin.{Plugin}
use cpex.Plugin.Launch.{worker_command}
use cpex.Plugin.Launch.Ready.{IsScript, worker_command-Ready}

abbrev plugin : Plugin
plugin = record {
  config = record {
    name = "filter";
    kind = "isolated_venv";
    hooks = [];
    capabilities = [];
    config = none;
  };
  class_name = "demo.A";
  plugin_dirs = "/p" ∷ [];
}

-- The environment of the first plugin, and the worker that its requirements brought.
abbrev installed : Disk
installed =
    put_file "/p/demo/.venv/lib/python3.12/site-packages/cpex/worker.py" ""
      (ensure tools first sources).1

abbrev pythons : String → Disk → List String
pythons path d = "/p/demo/.venv/lib/python3.12" ∷ []

abbrev no_python : Disk → Serde (List ℕ)
no_python d = refused "No such file or directory"

launches :
    worker_command tools pythons no_python "cpex/worker.py" none plugin (some first) installed ≡ (
      ok ("/p/demo/.venv/bin/python", "/p/demo/.venv/lib/python3.12/site-packages/cpex/worker.py"),
      installed,
    )
unfolding join worker_command ensure is_valid cache_verdict evaluate_cache hash_file_or_empty
    path_exists is_dir read_file lookup insert remove rebuild prepare_directories load_owners
    make_dir put_file delete_file delete_tree is_within starts_with create_venv create_unless
    install_requirements register_owner release_owner save_metadata current_metadata
    python_executable resolve_worker_script
launches = refl

worker_command-Ready_example :
    ("/p/demo/.venv/bin/python" ≡ python_executable first.layout)
    × (cache_verdict tools first installed ≡ valid)
    × IsScript "cpex/worker.py" "/p/demo/.venv/lib/python3.12/site-packages/cpex/worker.py"
        installed
    × (worker_command tools pythons no_python "cpex/worker.py" none plugin (some first) installed
        ≡ (
          ok (
            "/p/demo/.venv/bin/python", "/p/demo/.venv/lib/python3.12/site-packages/cpex/worker.py",
          ),
          installed,
        ))
worker_command-Ready_example =
    worker_command-Ready tools tools-Reliable pythons no_python "cpex/worker.py" plugin first
      first-Separate installed installed "/p/demo/.venv/bin/python"
      "/p/demo/.venv/lib/python3.12/site-packages/cpex/worker.py" launches
