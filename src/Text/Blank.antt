-- ===== src/Text/Blank.antt =====
-- When a trimmed text is empty.
use Prim.Native.Char.{code}
use Prim.Native.String.{[], ◌∷◌}
use cpex.Prelude.{
  ◌≡◌, refl, ◌∙◌, ap, inl, inr, Bool-cases, sym, Bool, true, false, ◌&&◌, String, arith,
}
use cpex.Text.{is_whitespace, is_empty, trim_start, trim_end, trim}

-- Nothing but whitespace.
pub is_blank : String → Bool
is_blank [] = true
is_blank (c ∷ s) = is_whitespace (code c) && is_blank s

is_blank-trim_start : (s : String) → is_blank (trim_start s) ≡ is_blank s
unfolding is_blank trim_start
is_blank-trim_start [] = refl
is_blank-trim_start (c ∷ s) = ground (arith, is_blank-trim_start s)

is_empty-trim_end : (s : String) → is_empty (trim_end s) ≡ is_blank s
unfolding is_blank trim_end is_empty
is_empty-trim_end [] = refl
is_empty-trim_end (c ∷ s) = ground (arith, is_empty-trim_end s)

is_blank-trim_end : (s : String) → is_blank (trim_end s) ≡ is_blank s
unfolding is_blank trim_end
is_blank-trim_end [] = refl
is_blank-trim_end (c ∷ s) = elim (Bool-cases (is_whitespace (code c) && is_empty (trim_end s))) [
  | inl e ↦ rw e (ground (arith, is_empty-trim_end s))
  | inr e ↦ rw e (ap (λ b. is_whitespace (code c) && b) (is_blank-trim_end s))
]

-- A trimmed text is empty exactly when the text was blank.
pub is_empty-trim : (s : String) → is_empty (trim s) ≡ is_blank s
unfolding trim
is_empty-trim s = is_empty-trim_end (trim_start s) ∙ is_blank-trim_start s

pub is_blank-trim : (s : String) → is_blank (trim s) ≡ is_blank s
unfolding trim
is_blank-trim s = is_blank-trim_end (trim_start s) ∙ is_blank-trim_start s

-- Trimming twice is empty only if trimming once is.
pub is_empty-trim_twice :
    (s : String) → is_empty (trim s) ≡ false → is_empty (trim (trim s)) ≡ false
is_empty-trim_twice s h = is_empty-trim (trim s) ∙ (is_blank-trim s ∙ (sym (is_empty-trim s) ∙ h))

pub is_empty_blank : (s : String) → is_empty s ≡ true → is_blank s ≡ true
unfolding is_empty is_blank
is_empty_blank [] h = refl
is_empty_blank (c ∷ s) h = cc
