-- ===== src/Prelude/Order/Compare.antt =====
-- Comparisons and the laws of a total preorder.
use Prim.Native.Nat.{ℕ, compare as compare_ℕ, Ordering}
use Prim.Native.Char.{code}
use Prim.Native.String.{String}
use mathlib.Core.Path.{◌≡◌, refl, ap}
use mathlib.Core.Logic.{◌≢◌}
use mathlib.Core.List.{List, [], ◌∷◌}
use mathlib.Core.Option.{Option, none, some}
use native.Mathlib.Omega.{arith}
use text.Mathlib.TextEquality.{Char-path}

abbrev pub opposite : Ordering → Ordering
opposite Ordering.lt = Ordering.gt
opposite Ordering.eq = Ordering.eq
opposite Ordering.gt = Ordering.lt

-- `Ordering::then_with`.
infixr 20 ◌then_with◌
abbrev pub ◌then_with◌ : Ordering → Ordering → Ordering
Ordering.lt then_with o = Ordering.lt
Ordering.eq then_with o = o
Ordering.gt then_with o = Ordering.gt

pub record IsPreorder {ℓ} {A : Type ℓ} (cmp : A → A → Ordering) : Type ℓ where
  pub flip : (a b : A) → cmp b a ≡ opposite (cmp a b)
  pub trans : (a b c : A) → cmp a b ≢ Ordering.gt → cmp b c ≢ Ordering.gt → cmp a c ≢ Ordering.gt

pub compare_ℕ-IsPreorder : IsPreorder compare_ℕ
compare_ℕ-IsPreorder = record { flip = λ a b. ground arith; trans = λ a b c. ground arith }

module _ {ℓ} {A : Type ℓ} where
  unfoldable pub compare_option : (A → A → Ordering) → Option A → Option A → Ordering
  compare_option cmp none none = Ordering.eq
  compare_option cmp none (some b) = Ordering.lt
  compare_option cmp (some a) none = Ordering.gt
  compare_option cmp (some a) (some b) = cmp a b

  unfoldable pub compare_list : (A → A → Ordering) → List A → List A → Ordering
  compare_list cmp [] [] = Ordering.eq
  compare_list cmp [] (b ∷ bs) = Ordering.lt
  compare_list cmp (a ∷ as') [] = Ordering.gt
  compare_list cmp (a ∷ as') (b ∷ bs) = cmp a b then_with compare_list cmp as' bs

-- A text's code points, in which order texts compare.
unfoldable pub codes : String → List ℕ
codes String.[] = []
codes (String.◌∷◌ c s) = code c ∷ codes s

unfoldable pub compare_text : String → String → Ordering
unfolding codes compare_list
compare_text s t = compare_list compare_ℕ (codes s) (codes t)

module _ {ℓ} {A : Type ℓ} {f g : A → A → Ordering} where
  -- Two comparisons, the second where the first finds the values equal.
  pub then_with-IsPreorder : IsPreorder f → IsPreorder g → IsPreorder (λ a b. f a b then_with g a b)
  then_with-IsPreorder F G = record {
    flip = λ a b. ground (arith, F.flip a b, G.flip a b);
    trans = λ a b c. ground (
      arith,
      F.trans a b c,
      F.trans b c a,
      F.trans c a b,
      F.flip a b,
      F.flip b c,
      F.flip a c,
      G.trans a b c,
    );
  }

module _ {ℓ} {A : Type ℓ} {cmp : A → A → Ordering} (C : IsPreorder cmp) where
  pub comap-IsPreorder {κ} : {B : Type κ} (f : B → A) → IsPreorder (λ a b. cmp (f a) (f b))
  comap-IsPreorder f = record {
    flip = λ a b. C.flip (f a) (f b);
    trans = λ a b c. C.trans (f a) (f b) (f c);
  }

  option_trans :
      (a b c : Option A)
      → compare_option cmp a b ≢ Ordering.gt
      → compare_option cmp b c ≢ Ordering.gt
      → compare_option cmp a c ≢ Ordering.gt
  unfolding compare_option
  option_trans (some a) (some b) (some c) p q = C.trans a b c p q
  option_trans none b none p q = λ e. cc
  option_trans none b (some c) p q = λ e. cc
  option_trans (some a) none c p q = absurd (p refl)
  option_trans (some a) (some b) none p q = absurd (q refl)

  option_flip : (a b : Option A) → compare_option cmp b a ≡ opposite (compare_option cmp a b)
  unfolding compare_option
  option_flip none none = refl
  option_flip none (some b) = refl
  option_flip (some a) none = refl
  option_flip (some a) (some b) = C.flip a b

  pub option-IsPreorder : IsPreorder (compare_option cmp)
  option-IsPreorder = record { flip = option_flip; trans = option_trans }

  list_flip : (a b : List A) → compare_list cmp b a ≡ opposite (compare_list cmp a b)
  unfolding compare_list
  list_flip [] [] = refl
  list_flip [] (y ∷ b) = refl
  list_flip (x ∷ a) [] = refl
  list_flip (x ∷ a) (y ∷ b) = ground (arith, C.flip x y, list_flip a b)

  list_trans :
      (a b c : List A)
      → compare_list cmp a b ≢ Ordering.gt
      → compare_list cmp b c ≢ Ordering.gt
      → compare_list cmp a c ≢ Ordering.gt
  unfolding compare_list
  list_trans [] b [] p q = λ e. cc
  list_trans [] b (z ∷ c) p q = λ e. cc
  list_trans (x ∷ a) [] c p q = absurd (p refl)
  list_trans (x ∷ a) (y ∷ b) [] p q = absurd (q refl)
  list_trans (x ∷ a) (y ∷ b) (z ∷ c) p q = ground (
    arith,
    C.trans x y z,
    C.trans y z x,
    C.trans z x y,
    C.flip x y,
    C.flip y z,
    C.flip x z,
    list_trans a b c,
  )

  pub list-IsPreorder : IsPreorder (compare_list cmp)
  list-IsPreorder = record { flip = list_flip; trans = list_trans }

pub compare_text-IsPreorder : IsPreorder compare_text
unfolding compare_text
compare_text-IsPreorder = comap-IsPreorder (list-IsPreorder compare_ℕ-IsPreorder) codes

-- Where the elements are told apart, so are lists and options of them.
abbrev pub TellsApart {ℓ} : {A : Type ℓ} → (A → A → Ordering) → Type ℓ
TellsApart {A} cmp = (a b : A) → cmp a b ≡ Ordering.eq → a ≡ b

module _ {ℓ} {A : Type ℓ} {cmp : A → A → Ordering} (apart : TellsApart cmp) where
  pub list-TellsApart : TellsApart (compare_list cmp)
  unfolding compare_list
  list-TellsApart [] [] e = refl
  list-TellsApart [] (b ∷ bs) e = cc
  list-TellsApart (a ∷ as') [] e = cc
  list-TellsApart (a ∷ as') (b ∷ bs) e = ground (arith, apart a b, list-TellsApart as' bs)

  pub option-TellsApart : TellsApart (compare_option cmp)
  unfolding compare_option
  option-TellsApart none none e = refl
  option-TellsApart none (some b) e = cc
  option-TellsApart (some a) none e = cc
  option-TellsApart (some a) (some b) e = ap some (apart a b e)

compare_ℕ-TellsApart : TellsApart compare_ℕ
compare_ℕ-TellsApart a b e = ground arith

codes_inj : (s t : String) → codes s ≡ codes t → s ≡ t
unfolding codes
codes_inj String.[] String.[] e = refl
codes_inj String.[] (String.◌∷◌ d t) e = cc
codes_inj (String.◌∷◌ c s) String.[] e = cc
codes_inj (String.◌∷◌ c s) (String.◌∷◌ d t) e = ground (arith, Char-path c d, codes_inj s t)

pub compare_text-TellsApart : TellsApart compare_text
unfolding compare_text
compare_text-TellsApart s t e =
    codes_inj s t (list-TellsApart compare_ℕ-TellsApart (codes s) (codes t) e)
