-- ===== src/Text.antt =====
-- The functions of Rust's `str` that the host uses, over code points.
pub mod Blank
use Prim.Native.Char.{code}
use Prim.Native.String.{[], ◌∷◌}
use cpex.Prelude.{
  ℕ, ◌+◌, ◌≡◌, refl, Bool, true, false, ◌&&◌, ◌||◌, String, Option, none, some, leb, eqb,
  if◌then◌else◌,
}

-- `char::is_whitespace`: the code points with the property White_Space.
unfoldable pub is_whitespace : ℕ → Bool
is_whitespace c =
    (leb 9 c && leb c 13)
    || eqb c 32
    || eqb c 0x85
    || eqb c 0xa0
    || eqb c 0x1680
    || (leb 0x2000 c && leb c 0x200a)
    || eqb c 0x2028
    || eqb c 0x2029
    || eqb c 0x202f
    || eqb c 0x205f
    || eqb c 0x3000

-- `u8::to_ascii_lowercase` on a code point.
unfoldable pub to_ascii_lowercase : ℕ → ℕ
to_ascii_lowercase c = if leb 65 c && leb c 90 then c + 32 else c

unfoldable pub is_empty : String → Bool
is_empty [] = true
is_empty (c ∷ s) = false

unfoldable pub trim_start : String → String
unfolding is_whitespace
trim_start [] = []
trim_start (c ∷ s) = if is_whitespace (code c) then trim_start s else c ∷ s

trim_end : String → String
trim_end [] = []
trim_end (c ∷ s) =
    let rest = trim_end s in if is_whitespace (code c) && is_empty rest then [] else c ∷ rest

unfoldable pub trim : String → String
unfolding trim_start trim_end is_empty is_whitespace
trim s = trim_end (trim_start s)

-- `str::eq_ignore_ascii_case`.
unfoldable pub eq_ignore_ascii_case : String → String → Bool
unfolding to_ascii_lowercase
eq_ignore_ascii_case [] [] = true
eq_ignore_ascii_case [] (d ∷ t) = false
eq_ignore_ascii_case (c ∷ s) [] = false
eq_ignore_ascii_case (c ∷ s) (d ∷ t) =
    eqb (to_ascii_lowercase (code c)) (to_ascii_lowercase (code d)) && eq_ignore_ascii_case s t

-- `t` is a prefix of `s`.
unfoldable pub starts_with : String → String → Bool
starts_with s [] = true
starts_with [] (d ∷ t) = false
starts_with (c ∷ s) (d ∷ t) = eqb (code c) (code d) && starts_with s t

-- `str::contains` with a text pattern.
unfoldable pub contains : String → String → Bool
unfolding starts_with
contains [] t = starts_with [] t
contains (c ∷ s) t = starts_with (c ∷ s) t || contains s t

-- What stands behind the first occurrence of a text, as `&s[s.find(t)? + t.len()..]`.
drop_prefix : String → String → String
drop_prefix s [] = s
drop_prefix [] (d ∷ t) = []
drop_prefix (c ∷ s) (d ∷ t) = drop_prefix s t

unfoldable pub after : String → String → Option String
unfolding starts_with drop_prefix
after [] t = if starts_with [] t then some [] else none
after (c ∷ s) t = if starts_with (c ∷ s) t then some (drop_prefix (c ∷ s) t) else after s t

-- What stands before the first code point `d`, as `&s[..s.find(d)?]`.
unfoldable pub before : ℕ → String → Option String
before d [] = none
before d (c ∷ s) =
    let rest = before d s in
    if eqb (code c) d then some [] else elim rest [ none ↦ none | some r ↦ some (c ∷ r) ]

trim_runs : trim " \t a b  " ≡ "a b"
unfolding trim
trim_runs = refl

bearer : eq_ignore_ascii_case "BeaRer " "bearer " ≡ true
unfolding eq_ignore_ascii_case
bearer = refl

-- `s.to_ascii_lowercase() == t`.
unfoldable pub lowered_eq : String → String → Bool
unfolding to_ascii_lowercase
lowered_eq [] [] = true
lowered_eq [] (d ∷ t) = false
lowered_eq (c ∷ s) [] = false
lowered_eq (c ∷ s) (d ∷ t) = eqb (to_ascii_lowercase (code c)) (code d) && lowered_eq s t
