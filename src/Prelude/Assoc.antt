-- ===== src/Prelude/Assoc.antt =====
-- Association lists with text keys. A missing key is `none`; an insertion replaces in place.
use Prim.Native.String.{String}
use mathlib.Core.Path.{◌≡◌, refl}
use mathlib.Core.List.{List, [], ◌∷◌}
use mathlib.Core.Option.{Option, none, some}
use native.Mathlib.Omega.{arith}
use text.Mathlib.TextEquality.{eq_iff}
use cpex.Prelude.Tests.{◌==◌, if◌then◌else◌}

module _ {ℓ} {X : Type ℓ} where
  unfoldable pub lookup : String → List (String × X) → Option X
  lookup key [] = none
  lookup key ((name, x) ∷ entries) = if name == key then some x else lookup key entries

  unfoldable pub insert : String → X → List (String × X) → List (String × X)
  insert key x [] = (key, x) ∷ []
  insert key x ((name, old) ∷ entries) =
      if name == key then (name, x) ∷ entries else (name, old) ∷ insert key x entries

  unfoldable pub remove : String → List (String × X) → List (String × X)
  remove key [] = []
  remove key ((name, old) ∷ entries) =
      let rest = remove key entries in if name == key then rest else (name, old) ∷ rest

  pub lookup-insert :
      (key name : String) (x : X) (entries : List (String × X))
      → lookup name (insert key x entries) ≡ (if key == name then some x else lookup name entries)
  unfolding lookup insert
  lookup-insert key name x [] = refl
  lookup-insert key name x ((at_head, old) ∷ entries) = ground (
    arith,
    eq_iff key name,
    eq_iff at_head key,
    eq_iff at_head name,
    lookup-insert key name x entries,
  )

  pub lookup-remove :
      (key name : String) (entries : List (String × X))
      → lookup name (remove key entries) ≡ (if key == name then none else lookup name entries)
  unfolding lookup remove
  lookup-remove key name [] = ground arith
  lookup-remove key name ((at_head, old) ∷ entries) = ground (
    arith,
    eq_iff key name,
    eq_iff at_head key,
    eq_iff at_head name,
    lookup-remove key name entries,
  )
