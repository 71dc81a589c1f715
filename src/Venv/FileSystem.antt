-- ===== src/Venv/FileSystem.antt =====
-- The part of `std::fs` that crates/cpex-hosts-python/src/venv.rs uses, on a disk that is passed on,
-- and actions on a disk that may fail.
pub mod Frame
pub mod Keeps
mod Path
use Prim.Native.String.{◌++◌}
use mathlib.Core.List.{◌++◌ as append}
use cpex.Prelude.{
  Bool, true, false, ◌&&◌, ◌||◌, not, String, Option, none, some, List, [], ◌∷◌, any, filter,
  lookup, insert, remove, ◌==◌, if◌then◌else◌, is_some,
}
use cpex.Text.{starts_with}
unfoldable pub use cpex.Venv.FileSystem.Path.{join, parents}
use cpex.HostError.{HostError}
use cpex.Result.{Result, ok, err}

-- The regular files with their contents, and the directories.
pub record Disk : Type 0 where
  pub files : List (String × String)
  pub dirs : List String

-- Whether an operation on a path fails, with the text of its error. A directory that is missing, a
-- permission or a full disk are reasons for it.
pub record Faults : Type 0 where
  pub create_error : String → Disk → Option String
  pub write_error : String → Disk → Option String
  pub remove_file_error : String → Disk → Option String
  pub remove_dir_error : String → Disk → Option String

-- The path is the directory or stands below it.
unfoldable pub is_within : String → String → Bool
is_within dir path = path == dir || starts_with path (dir ++ "/")

unfoldable pub is_dir : String → Disk → Bool
is_dir path d = any (λ p. p == path) d.dirs

-- `std::fs::read_to_string`, with no value for an error.
unfoldable pub read_file : String → Disk → Option String
read_file path d = lookup path d.files

-- `Path::exists`.
unfoldable pub path_exists : String → Disk → Bool
path_exists path d = is_dir path d || is_some (read_file path d)

unfoldable pub put_file : String → String → Disk → Disk
put_file path text d = record d { files = insert path text d.files }

unfoldable pub delete_file : String → Disk → Disk
delete_file path d = record d { files = remove path d.files }

-- `create_dir_all` makes the directory and those above it.
unfoldable pub make_dir : String → Disk → Disk
unfolding parents
make_dir path d = record d { dirs = path ∷ append (parents "" path) d.dirs }

unfoldable pub delete_tree : String → Disk → Disk
delete_tree path d = record {
  files = filter (λ f. not (is_within path f.0)) d.files;
  dirs = filter (λ p. not (is_within path p)) d.dirs;
}

-- An action leaves a disk, also where it fails.
abbrev pub Io {ℓ} : Type ℓ → Type ℓ
Io A = Disk → Result A × Disk

abbrev pub go_on {ℓ κ} : {A : Type ℓ} {B : Type κ} → Result A × Disk → (A → Io B) → Result B × Disk
go_on (err e, d) next = (err e, d)
go_on (ok a, d) next = next a d

infixl 5 ◌>>=◌ ◌>>◌
abbrev pub ◌>>=◌ {ℓ κ} : {A : Type ℓ} {B : Type κ} → Io A → (A → Io B) → Io B
◌>>=◌ action next d = go_on (action d) next

abbrev pub ◌>>◌ {κ} : {B : Type κ} → Io (Unit {0}) → Io B → Io B
◌>>◌ action next = action >>= λ done. next

abbrev pub pure {ℓ} : {A : Type ℓ} → A → Io A
pure a d = (ok a, d)

abbrev pub fail {ℓ} : {A : Type ℓ} → HostError → Io A
fail e d = (err e, d)

-- An operation that fails by the text of its error, or does its work.
abbrev pub perform : Option String → (String → HostError) → (Disk → Disk) → Io (Unit {0})
perform none message work d = (ok tt, work d)
perform (some e) message work d = (err (message e), d)
