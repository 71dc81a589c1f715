-- ===== src/Plugin/Launch.antt =====
-- `launch_worker` of crates/cpex-hosts-python/src/plugin.rs: which interpreter runs which script,
-- once the environment is there.
pub mod Ready
mod Tests
use Prim.Native.String.{◌++◌}
use cpex.Prelude.{String, Option, none, some, List, [], ◌∷◌, ℕ, find, if◌then◌else◌}
use cpex.Text.{trim, is_empty}
use cpex.HostError.{config, worker_start}
use cpex.Result.{Result, ok, err, Serde, map_err}
use cpex.Venv.{python_executable}
use cpex.Venv.FileSystem.{Disk, Io, ◌>>=◌, pure, fail, join, path_exists}
use cpex.Venv.Tools.{VenvManager, Tools}
use cpex.Venv.Manager.{EnsureOutcome, ensure}
use cpex.Worker.Sending.{resolve_worker_script}
use cpex.Plugin.{Plugin, join_texts}

-- `list_dir` are the paths that `read_dir` lists in a directory.
find_script :
    (list_dir : String → Disk → List String) → (venv_path script_path : String) → Io String
find_script list_dir venv_path script_path d =
    (resolve_worker_script (list_dir (join venv_path "lib") d) venv_path script_path d, d)

not_on_path : String → Result String
not_on_path path =
    if is_empty path then err (worker_start "python3 was not found on PATH") else ok path

python_candidates : List String
python_candidates = "/usr/bin/python3" ∷ "/usr/local/bin/python3" ∷ "/opt/homebrew/bin/python3" ∷ []

-- `command_v` is the output of the command `command -v python3`, or the error of its start.
ask_shell : Tools → (command_v : Disk → Serde (List ℕ)) → Io String
unfolding not_on_path
ask_shell t command_v = do
  stdout ← λ d. (map_err (command_v d) (λ e. worker_start ("could not look up python3: " ++ e)), d)
  λ d. (not_on_path (trim (t.decode stdout)), d)

which_python3 : Tools → (command_v : Disk → Serde (List ℕ)) → Io String
unfolding python_candidates ask_shell
which_python3 t command_v d = elim (find (λ p. path_exists p d) python_candidates) [
  | some found ↦ (ok found, d)
  | none ↦ ask_shell t command_v d
]

-- The interpreter and the script that the worker is spawned with.
unfoldable pub worker_command :
    Tools
    → (list_dir : String → Disk → List String) → (command_v : Disk → Serde (List ℕ))
    → (script_path : String) → (worker_override : Option String) → Plugin
    → Option VenvManager
    → Io (String × String)
unfolding find_script which_python3
worker_command t list_dir command_v script_path (some script) p venv = do
  python ← which_python3 t command_v
  pure (python, script)
worker_command t list_dir command_v script_path none p none = fail (
    config (
      "could not resolve a venv layout under "
      ++ (join_texts p.plugin_dirs
          ++ (" — check that `class_name` ('"
              ++ (p.class_name ++ "') begins with a package segment")))))
worker_command t list_dir command_v script_path none p (some venv) = do
  outcome ← ensure t venv
  script ← find_script list_dir venv.layout.venv_path script_path
  pure (python_executable venv.layout, script)
