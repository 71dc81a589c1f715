-- ===== src/Prelude/Order/Sorting.antt =====
-- `sort_by`, which is stable, by insertion.
use Prim.Native.Nat.{Ordering}
use mathlib.Core.Path.{◌≡◌, refl, sym, ap, ◌∙◌}
use mathlib.Core.Logic.{◌≢◌, ◌⊎◌, inl, inr, ◌↔◌}
use mathlib.Core.Bool.{Bool, true}
use mathlib.Core.List.{List, [], ◌∷◌}
use native.Mathlib.Omega.{arith}
use cpex.Prelude.Tests.{Bool-cases}
use cpex.Prelude.Lists.{filter}
use cpex.Prelude.Order.Compare.{IsPreorder, opposite}

-- Membership that keeps the position.
abbrev pub In : {A : Type 0} → A → List A → Type 0
In x [] = ⊥
In x (y ∷ ys) = (x ≡ y) ⊎ In x ys

module _ {A : Type 0} where
  unfoldable pub insert_by : (A → A → Ordering) → A → List A → List A
  insert_by cmp x [] = x ∷ []
  insert_by cmp x (y ∷ ys) = elim (cmp x y) [
    | Ordering.gt ↦ y ∷ insert_by cmp x ys
    | _ ↦ x ∷ y ∷ ys
  ]

  unfoldable pub sort_by : (A → A → Ordering) → List A → List A
  unfolding insert_by
  sort_by cmp [] = []
  sort_by cmp (x ∷ xs) = insert_by cmp x (sort_by cmp xs)

  pub in_of_filter :
      (p : A → Bool) (x : A) (xs : List A) → In x (filter p xs) → In x xs × (p x ≡ true)
  in_of_filter p x [] h = absurd h
  in_of_filter p x (y ∷ ys) h = elim (Bool-cases (p y)) [
    | inl e ↦ elim (rw e at h) as (λ _. In x (y ∷ ys) × (p x ≡ true)) [
      | inl same ↦ (inl same, ap p same ∙ e)
      | inr more ↦ let (m, t) = in_of_filter p x ys more in (inr m, t)
    ]
    | inr e ↦ let (m, t) = in_of_filter p x ys (rw e at h) in (inr m, t)
  ]

  pub in-filter : (p : A → Bool) (x : A) (xs : List A) → In x xs → p x ≡ true → In x (filter p xs)
  in-filter p x [] h t = absurd h
  in-filter p x (y ∷ ys) (inl same) t = rw (ap p (sym same) ∙ t) (inl same)
  in-filter p x (y ∷ ys) (inr more) t = elim (Bool-cases (p y)) [
    | inl e ↦ rw e (inr (in-filter p x ys more t))
    | inr e ↦ rw e (in-filter p x ys more t)
  ]

Ordering-cases : (o : Ordering) → (o ≡ Ordering.gt) ⊎ (o ≢ Ordering.gt)
Ordering-cases Ordering.lt = inr (λ e. cc)
Ordering-cases Ordering.eq = inr (λ e. cc)
Ordering-cases Ordering.gt = inl refl

-- Two lists with the same members, as two orders in which one map may be iterated.
abbrev pub SameMembers : {A : Type 0} → List A → List A → Type 0
SameMembers {A} xs ys = (a : A) → In a xs ↔ In a ys

module _ {A : Type 0} {cmp : A → A → Ordering} (C : IsPreorder cmp) where
  -- The value is in the list, and nothing in the list comes before it.
  pub record IsLeast (y : A) (xs : List A) : Type 0 where
    pub member : In y xs
    pub least : (z : A) → In z xs → cmp y z ≢ Ordering.gt

  self : (a : A) → cmp a a ≢ Ordering.gt
  self a = let f : cmp a a ≡ opposite (cmp a a) = C.flip a a in λ e. ground arith

  insert_by_before :
      (x y : A) (ys : List A) → cmp x y ≢ Ordering.gt → insert_by cmp x (y ∷ ys) ≡ x ∷ y ∷ ys
  unfolding insert_by
  insert_by_before x y ys h = ground arith

  insert_by_after :
      (x y : A) (ys : List A)
      → cmp x y ≡ Ordering.gt
      → insert_by cmp x (y ∷ ys) ≡ y ∷ insert_by cmp x ys
  unfolding insert_by
  insert_by_after x y ys h = ground arith

  after_flip : (x y : A) → cmp x y ≡ Ordering.gt → cmp y x ≢ Ordering.gt
  after_flip x y h = let f : cmp y x ≡ opposite (cmp x y) = C.flip x y in λ e. ground arith

  -- A sorted list that is not empty has a least element at its head.
  pub sort_by-IsLeast :
      (x : A) (xs : List A)
      → (y : A) × (ys : List A) × (sort_by cmp (x ∷ xs) ≡ y ∷ ys) × IsLeast y (x ∷ xs)
  unfolding sort_by
  sort_by-IsLeast x [] = (x, [], refl, record { member = inl refl; least = λ z h. alone z h })
    where
      alone : (z : A) → In z (x ∷ []) → cmp x z ≢ Ordering.gt
      alone z (inl e) = rw e (self x)
      alone z (inr e) = absurd e
  sort_by-IsLeast x (x' ∷ xs) = place (sort_by-IsLeast x' xs)
    where
      place :
          ((y : A) × (ys : List A) × (sort_by cmp (x' ∷ xs) ≡ y ∷ ys) × IsLeast y (x' ∷ xs))
          → (y : A) × (ys : List A) × (sort_by cmp (x ∷ x' ∷ xs) ≡ y ∷ ys) × IsLeast y (x ∷ x' ∷ xs)
      place (y, ys, e, l) = elim (Ordering-cases (cmp x y)) [
        | inl after ↦ (
          y,
          insert_by cmp x ys,
          rw e (insert_by_after x y ys after),
          record {
            member = inr l.member;
            least =
                λ z. elim [ inl same ↦ rw same (after_flip x y after) | inr more ↦ l.least z more ];
          },
        )
        | inr before ↦ (
          x,
          y ∷ ys,
          rw e (insert_by_before x y ys before),
          record {
            member = inl refl;
            least = λ z. elim [
              | inl same ↦ rw same (self x)
              | inr more ↦ C.trans x y z before (l.least z more)
            ];
          },
        )
      ]

  -- Least elements of lists with the same members compare equal.
  pub IsLeast-eq :
      (y z : A) (xs ys : List A)
      → SameMembers xs ys
      → IsLeast y xs
      → IsLeast z ys
      → cmp y z ≡ Ordering.eq
  IsLeast-eq y z xs ys same l m =
      let below : cmp y z ≢ Ordering.gt = l.least z ((same z).1 m.member) in
      let above : cmp z y ≢ Ordering.gt = m.least y ((same y).0 l.member) in
      let f : cmp z y ≡ opposite (cmp y z) = C.flip y z in ground arith
