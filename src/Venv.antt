-- ===== src/Venv.antt =====
-- crates/cpex-hosts-python/src/venv.rs: where a plugin's virtual environment stands, and whether the
-- one that stands there can be used again. The manager that builds it is in Manager, and the file
-- system that both read is in FileSystem.
pub mod FileSystem
pub mod Cache
pub mod Tools
pub mod Manager
use Prim.Native.Char.{code}
use Prim.Native.String.{[], ◌∷◌, ◌++◌}
use cpex.Prelude.{
  ℕ, Bool, true, false, ◌||◌, not, String, Option, none, some, List, eqb, head, ◌==◌, if◌then◌else◌,
}
use cpex.Text.{trim, is_empty, before}
use cpex.HostError.{HostError, config}
use cpex.Result.{Result, ok, err, Serde, parsed, refused}
use cpex.Venv.FileSystem.{Disk, path_exists, read_file, join}

pub record CacheMetadata : Type 0 where
  pub venv_path : String
  pub requirements_file : Option String
  pub requirements_hash : String
  pub manifest_version : Option String
  pub manifest_hash : Option String
  pub python_version : Option String

pub data CacheVerdict : Type 0 where
  valid venv_missing metadata_missing metadata_unreadable : CacheVerdict
  requirements_changed manifest_version_changed manifest_hash_changed : CacheVerdict

unfoldable pub is_valid : CacheVerdict → Bool
is_valid valid = true
is_valid _ = false

abbrev text_or_empty : Option String → String
text_or_empty none = ""
text_or_empty (some s) = s

-- `sha256` is the hexadecimal digest of a content.
unfoldable pub hash_file_or_empty : (String → String) → Option String → Disk → String
hash_file_or_empty sha256 none d = sha256 ""
hash_file_or_empty sha256 (some path) d = sha256 (text_or_empty (read_file path d))

-- A signal that the metadata has, against the one of now. A missing one says nothing.
abbrev pub differs : Option String → Option String → Bool
differs none expected = false
differs (some cached) none = true
differs (some cached) (some expected) = not (cached == expected)

judge : CacheMetadata → String → Option String → Option String → CacheVerdict
judge m requirements version manifest =
    if not (m.requirements_hash == requirements)
    then requirements_changed
    else if differs m.manifest_version version
    then manifest_version_changed
    else if differs m.manifest_hash manifest
    then manifest_hash_changed
    else valid

judge_parsed : Serde CacheMetadata → String → Option String → Option String → CacheVerdict
judge_parsed (refused e) requirements version manifest = metadata_unreadable
judge_parsed (parsed m) requirements version manifest = judge m requirements version manifest

judge_text :
    (String → Serde CacheMetadata)
    → Option String
    → String
    → Option String
    → Option String
    → CacheVerdict
judge_text parse none requirements version manifest = metadata_unreadable
judge_text parse (some raw) requirements version manifest =
    judge_parsed (parse raw) requirements version manifest

unfoldable pub evaluate_cache :
    (String → Serde CacheMetadata)
    → (venv_path metadata_path requirements : String) → (version manifest : Option String) → Disk
    → CacheVerdict
unfolding judge_text judge_parsed judge
evaluate_cache parse venv_path metadata_path requirements version manifest d =
    if not (path_exists venv_path d)
    then venv_missing
    else if not (path_exists metadata_path d)
    then metadata_missing
    else judge_text parse (read_file metadata_path d) requirements version manifest

-- `is_alphanumeric` is `char::is_alphanumeric`, a table of Unicode.
safe_chars : (ℕ → Bool) → String → String
safe_chars is_alphanumeric [] = []
safe_chars is_alphanumeric (c ∷ s) =
    (if is_alphanumeric (code c) || eqb (code c) 45 || eqb (code c) 95 then c else "-")
    ∷ safe_chars is_alphanumeric s

trim_dashes_start : String → String
trim_dashes_start [] = []
trim_dashes_start (c ∷ s) = if eqb (code c) 45 then trim_dashes_start s else c ∷ s

trim_dashes_end : String → String
trim_dashes_end [] = []
trim_dashes_end (c ∷ s) =
    let rest = trim_dashes_end s in
    if is_empty rest then (if eqb (code c) 45 then [] else c ∷ []) else c ∷ rest

or_plugin : String → String
or_plugin stem = if is_empty stem then "plugin" else stem

unfoldable pub manifest_stem_for_class : (ℕ → Bool) → String → String
unfolding safe_chars trim_dashes_start trim_dashes_end or_plugin
manifest_stem_for_class is_alphanumeric class_name =
    or_plugin (trim_dashes_end (trim_dashes_start (safe_chars is_alphanumeric (trim class_name))))

unfoldable pub manifest_filename_for_class : (ℕ → Bool) → String → String
manifest_filename_for_class is_alphanumeric class_name =
    manifest_stem_for_class is_alphanumeric class_name ++ ".plugin-manifest.yaml"

abbrev pub owners_filename : String
owners_filename = "owners.json"

pub record VenvLayout : Type 0 where
  pub plugin_path : String
  pub venv_path : String
  pub cache_dir : String
  pub metadata_path : String
  pub manifest_path : String
  pub owners_path : String

-- `class_name.split('.').next()`.
class_root : String → String
class_root class_name = elim (before 46 class_name) [ none ↦ class_name | some root ↦ root ]

layout_under : (ℕ → Bool) → String → String → VenvLayout
layout_under is_alphanumeric class_name plugin_path =
    let cache_dir = join (join plugin_path ".cpex") "venv_cache" in
    record {
      plugin_path = plugin_path;
      venv_path = join plugin_path ".venv";
      cache_dir = cache_dir;
      metadata_path =
          join cache_dir (manifest_stem_for_class is_alphanumeric class_name ++ "_metadata.json");
      manifest_path = join plugin_path (manifest_filename_for_class is_alphanumeric class_name);
      owners_path = join cache_dir owners_filename;
    }

resolve_under : (ℕ → Bool) → Option String → String → Result VenvLayout
resolve_under is_alphanumeric none class_name = err (
    config
      "isolated_venv requires at least one plugin directory — the venv is built under the first one")
resolve_under is_alphanumeric (some first) class_name =
    if is_empty (class_root class_name)
    then err (config ("`class_name` '" ++ (class_name ++ "' has no leading package segment")))
    else ok (layout_under is_alphanumeric class_name (join first (class_root class_name)))

unfoldable pub resolve : (ℕ → Bool) → List String → String → Result VenvLayout
unfolding resolve_under class_root layout_under
resolve is_alphanumeric plugin_dirs class_name =
    resolve_under is_alphanumeric (head plugin_dirs) class_name

-- The interpreter, where the host does not run on Windows.
unfoldable pub python_executable : VenvLayout → String
python_executable layout = join (join layout.venv_path "bin") "python"
