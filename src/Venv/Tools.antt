-- ===== src/Venv/Tools.antt =====
-- What `VenvManager` of crates/cpex-hosts-python/src/venv.rs is made of, and the commands and serializers that it
-- is run with.
use cpex.Prelude.{ℕ, Bool, String, Option, none, some, List, if◌then◌else◌}
use cpex.Text.{starts_with}
use cpex.Json.{ℤ}
use cpex.Result.{Result, ok, err, Serde}
use cpex.Venv.{CacheMetadata, VenvLayout, resolve}
use cpex.Venv.FileSystem.{Disk, Faults, join}

abbrev pub default_pip_timeout_secs : ℕ
default_pip_timeout_secs = 600

pub record VenvManager : Type 0 where
  pub layout : VenvLayout
  pub requirements_file : Option String
  pub manifest_version : Option String
  pub class_name : String
  pub pip_timeout_secs : ℕ

-- How a command ended; an exit has a code, unless a signal ended the process, and what it wrote.
pub data Command : Type 0 where
  not_run : (error : String) → Command
  not_awaited : (error : String) → Command
  timed_out : Command
  exited : Option ℤ → (stderr : List ℕ) → Command

-- The digest, the serializers at the two types that are stored, and the commands that are run:
-- `python3 -m venv` on a path, and pip of an interpreter on a requirements file.
pub record Tools : Type 0 where
  pub faults : Faults
  pub sha256 : String → String
  pub decode : List ℕ → String
  pub metadata_of : String → Serde CacheMetadata
  pub metadata_text : CacheMetadata → Serde String
  pub owners_of : String → Serde (List String)
  pub owners_text : List String → Serde String
  pub make_venv : String → Disk → Command × Disk
  pub pip_install : (python requirements : String) → (timeout_secs : ℕ) → Disk → Command × Disk

absolute_in : String → String → String
absolute_in plugin_path rel = if starts_with rel "/" then rel else join plugin_path rel

requirements_in : VenvLayout → Option String → Option String
unfolding absolute_in
requirements_in layout none = none
requirements_in layout (some rel) = some (absolute_in layout.plugin_path rel)

manager_for : String → Option String → Option String → VenvLayout → VenvManager
unfolding requirements_in
manager_for class_name requirements version layout = record {
  layout = layout;
  requirements_file = requirements_in layout requirements;
  manifest_version = version;
  class_name = class_name;
  pip_timeout_secs = default_pip_timeout_secs;
}

-- `VenvManager::new`.
unfoldable pub new_manager :
    (ℕ → Bool) → List String → String → (requirements version : Option String) → Result VenvManager
unfolding manager_for
new_manager is_alphanumeric plugin_dirs class_name requirements version =
    elim (resolve is_alphanumeric plugin_dirs class_name) [
      | err e ↦ err e
      | ok layout ↦ ok (manager_for class_name requirements version layout)
    ]
