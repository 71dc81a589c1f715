-- ===== src/Venv/FileSystem/Path.antt =====
-- The functions of `std::path` and the directories above a path, for crates/cpex-hosts-python/src/venv.rs.
use Prim.Native.Char.{Char, code}
use Prim.Native.String.{[], ◌∷◌, ◌++◌}
use mathlib.Core.List.{[] as no_paths, ◌∷◌ as add}
use cpex.Prelude.{Bool, false, ◌&&◌, ◌||◌, not, String, List, eqb, if◌then◌else◌}
use cpex.Text.{starts_with, is_empty}

is_slash : Char → Bool
is_slash c = eqb (code c) 47

ends_in_slash : String → Bool
unfolding is_slash
ends_in_slash [] = false
ends_in_slash (c ∷ []) = is_slash c
ends_in_slash (c ∷ d ∷ s) = ends_in_slash (d ∷ s)

-- `Path::join`: an absolute path replaces the directory, and a separator is put where there is none.
unfoldable pub join : String → String → String
unfolding starts_with ends_in_slash is_empty
join dir name =
    if starts_with name "/"
    then name
    else (if is_empty dir || ends_in_slash dir then dir ++ name else dir ++ ("/" ++ name))

-- The directories above a path, behind what was read of it; the root is always there.
unfoldable pub parents : (read : String) → String → List String
unfolding is_slash is_empty
parents read [] = no_paths
parents read (c ∷ s) =
    let rest = parents (read ++ (c ∷ [])) s in
    if is_slash c && not (is_empty read) then add read rest else rest
