-- ===== src/CredentialPayloads/Lossless.antt =====
-- `first_dropped` of crates/cpex-hosts-python/src/credential_payloads.rs against a relation that
-- says when a set part of a value is gone after a round trip through a type.
use cpex.Prelude.{
  ◌↔◌, ℕ, suc, ◌≡◌, ◌≢◌, refl, inl, inr, false, String, Option, none, some, arith, length, eqb,
  Bool-cases, Option-cases,
}
use cpex.Json.{Value, Items, Fields, array, object, items, get, cons, end, field}
use cpex.CredentialPayloads.{
  is_unset, first_dropped, first_dropped_fields, first_dropped_items, in_object, in_array, or_else,
  parse_lossless,
}
use cpex.Result.{Serde, Serde-cases, parsed, ok}

-- A field of an object.
pub data FieldIn (k : String) (v : Value) : Fields → Type 0 where
  first : {fs : Fields} → FieldIn k v (field k v fs)
  later : {j : String} {w : Value} {fs : Fields} → FieldIn k v fs → FieldIn k v (field j w fs)

-- Two elements at one position.
pub data Beside (v w : Value) : Items → Items → Type 0 where
  first : {vs ws : Items} → Beside v w (cons v vs) (cons w ws)
  later : {a b : Value} {vs ws : Items} → Beside v w vs ws → Beside v w (cons a vs) (cons b ws)

-- The two values are compared where both are objects and where both are arrays, and a field that is set with
-- the field under the same key. There a set field has no counterpart in the second, or an array has another
-- length. Values of different kinds are not compared, so a set field may come back as `null`.
pub data Lost : Value → Value → Type 0 where
  absent :
      {k : String} {v : Value} {fs ks : Fields}
      → FieldIn k v fs
      → is_unset v ≡ false
      → get k ks ≡ none
      → Lost (object fs) (object ks)
  inside :
      {k : String} {v w : Value} {fs ks : Fields}
      → FieldIn k v fs
      → is_unset v ≡ false
      → get k ks ≡ some w
      → Lost v w
      → Lost (object fs) (object ks)
  resized : {vs ws : Items} → length (items vs) ≢ length (items ws) → Lost (array vs) (array ws)
  element : {v w : Value} {vs ws : Items} → Beside v w vs ws → Lost v w → Lost (array vs) (array ws)

or_else-none {ℓ} : {A : Type ℓ} (o p : Option A) → or_else o p ≡ none → (o ≡ none) × (p ≡ none)
or_else-none none p h = (refl, h)
or_else-none (some a) p h = cc

-- What no loss among the fields says of one of them.
kept_field :
    {k : String} {v : Value} {fs : Fields} (ks : Fields) (path : String)
    → FieldIn k v fs
    → is_unset v ≡ false
    → first_dropped_fields fs ks path ≡ none
    → (w : Value) × (get k ks ≡ some w) × (first_dropped v w (in_object path k) ≡ none)
unfolding first_dropped
kept_field {k} {v} ks path (first {fs}) set h = elim (Option-cases (get k ks)) [
  | inl gone ↦ absurd (ground arith)
  | inr (w, e) ↦ (w, e, ground arith)
]
kept_field {k} {v} ks path (later {j} {w = u} {fs} m) set h = elim (Bool-cases (is_unset u)) [
  | inl e ↦ kept_field ks path m set (rw e at h)
  | inr e ↦ kept_field ks path m set (or_else-none _ _ (rw e at h)).1
]

kept_item :
    {v w : Value} {vs ws : Items} (path : String) (i : ℕ)
    → Beside v w vs ws
    → first_dropped_items vs ws path i ≡ none
    → (j : ℕ) × (first_dropped v w (in_array path j) ≡ none)
unfolding first_dropped
kept_item path i first h = (i, (or_else-none _ _ h).0)
kept_item path i (later {vs} {ws} m) h = kept_item path (suc i) m (or_else-none _ _ h).1

not-Lost_of_none : {v w : Value} (path : String) → Lost v w → first_dropped v w path ≡ none → ⊥
unfolding first_dropped
not-Lost_of_none path (absent {ks} m set gone) h =
    let (w, found, _) = kept_field ks path m set h in cc (gone, found)
not-Lost_of_none path (inside {k} {ks} m set found lost) h =
    let (w, found', none_below) = kept_field ks path m set h in
    not-Lost_of_none (in_object path k) lost (ground arith)
not-Lost_of_none path (resized {vs} {ws} apart) h = ground arith
not-Lost_of_none path (element {vs} {ws} m lost) h =
    elim (Bool-cases (eqb (length (items vs)) (length (items ws)))) [
      | inl same ↦
          let (j, none_below) = kept_item path 0 m (ground arith) in
          not-Lost_of_none (in_array path j) lost none_below
      | inr apart ↦ ground arith
    ]

weaken_field :
    {j : String} {u : Value} {fs ks : Fields}
    → Lost (object fs) (object ks)
    → Lost (object (field j u fs)) (object ks)
weaken_field (absent m set gone) = absent (later m) set gone
weaken_field (inside m set found lost) = inside (later m) set found lost

-- A loss between elements at one position.
data LostItem (vs ws : Items) : Type 0 where
  at : {v w : Value} → Beside v w vs ws → Lost v w → LostItem vs ws

weaken_item : {v w : Value} {vs ws : Items} → LostItem vs ws → LostItem (cons v vs) (cons w ws)
weaken_item (at m lost) = at (later m) lost

array_of_item : {vs ws : Items} → LostItem vs ws → Lost (array vs) (array ws)
array_of_item (at m lost) = element m lost

past_field :
    (k : String) (v w : Value) (fs ks : Fields) (path : String) {p : String}
    → is_unset v ≡ false
    → get k ks ≡ some w
    → first_dropped v w (in_object path k) ≡ none
    → first_dropped_fields (field k v fs) ks path ≡ some p
    → first_dropped_fields fs ks path ≡ some p
unfolding first_dropped
past_field k v w fs ks path set found fine h = ground arith

mutual
  unfolding first_dropped

  Lost-of_some :
      (v w : Value) (path : String) {p : String} → first_dropped v w path ≡ some p → Lost v w
  Lost-of_some (object fs) (object ks) path h = Lost-of_fields fs ks path h
  Lost-of_some (array vs) (array ws) path h =
      elim (Bool-cases (eqb (length (items vs)) (length (items ws)))) [
        | inl same ↦ array_of_item (Lost_of_items vs ws path 0 (rw same at h))
        | inr apart ↦ resized (λ e. ground arith)
      ]
  Lost-of_some _ _ path h = cc

  Lost-of_fields :
      (fs ks : Fields) (path : String) {p : String}
      → first_dropped_fields fs ks path ≡ some p
      → Lost (object fs) (object ks)
  Lost-of_fields end ks path h = cc
  Lost-of_fields (field k v fs) ks path h = elim (Bool-cases (is_unset v)) [
    | inl e ↦ weaken_field (Lost-of_fields fs ks path (rw e at h))
    | inr e ↦ elim (Option-cases (get k ks)) [
      | inl gone ↦ absent first e gone
      | inr (w, found) ↦ elim (Option-cases (first_dropped v w (in_object path k))) [
        | inl fine ↦
            weaken_field (Lost-of_fields fs ks path (past_field k v w fs ks path e found fine h))
        | inr (q, lost) ↦ inside first e found (Lost-of_some v w (in_object path k) lost)
      ]
    ]
  ]

  Lost_of_items :
      (vs ws : Items) (path : String) (i : ℕ) {p : String}
      → first_dropped_items vs ws path i ≡ some p
      → LostItem vs ws
  Lost_of_items (cons v vs) (cons w ws) path i h =
      elim (Option-cases (first_dropped v w (in_array path i))) [
        | inl fine ↦ weaken_item (Lost_of_items vs ws path (suc i) (rw fine at h))
        | inr (q, lost) ↦ at first (Lost-of_some v w (in_array path i) lost)
      ]
  Lost_of_items _ _ path i h = cc

-- `first_dropped` finds no path exactly when nothing is lost: at every depth that is reached through objects on both
-- sides and arrays on both sides, no set field of an object is missing and no array has changed its length. A field
-- that became `null` or a value of another kind is no loss.
pub first_dropped-eq-none_iff :
    (v w : Value) (path : String) → (first_dropped v w path ≡ none) ↔ (¬ Lost v w)
first_dropped-eq-none_iff v w path = (
  λ h lost. not-Lost_of_none path lost h,
  λ kept. elim (Option-cases (first_dropped v w path)) [
    | inl fine ↦ fine
    | inr (p, e) ↦ absurd (kept (Lost-of_some v w path e))
  ],
)

-- A parse that succeeds is a parse of the value, and what the type prints back lacks no set field and has every array
-- in its length, where the two values are of the same kind. A set field may come back as a value of another kind.
pub parse_lossless_sound {ℓ} :
    {T : Type ℓ} (parse : Value → Serde T) (print : T → Serde Value) (hook name : String)
    (v : Value) (t : T)
    → parse_lossless parse print hook name v ≡ ok t
    → (back : Value) × (parse v ≡ parsed t) × (print t ≡ parsed back) × (¬ Lost v back)
unfolding parse_lossless
parse_lossless_sound parse print hook name v t h = elim (Serde-cases (parse v)) [
  | inl (e, bad) ↦ absurd (ground arith)
  | inr (t', good) ↦ elim (Serde-cases (print t')) [
    | inl (e, bad) ↦ absurd (ground arith)
    | inr (back, printed) ↦ elim (Option-cases (first_dropped v back name)) [
      | inl fine ↦
          let same : t' ≡ t = ground arith in
          (
            back,
            rw (← same) good,
            rw (← same) printed,
            (first_dropped-eq-none_iff v back name).0 fine,
          )
      | inr (p, bad) ↦ absurd (ground arith)
    ]
  ]
]
