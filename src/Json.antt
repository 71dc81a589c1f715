-- ===== src/Json.antt =====
-- `serde_json::Value` as the host uses it: its constructors, and reading and writing object fields.
use cpex.Prelude.{
  ℕ, ◌^◌, ◌≡◌, refl, Bool, String, Option, none, some, List, [], ◌∷◌, arith, ltb, ◌==◌,
  if◌then◌else◌, eq_iff, lookup,
}

-- `negsuc n` is -(n + 1).
pub data ℤ : Type 0 where
  pos : ℕ → ℤ
  negsuc : ℕ → ℤ

-- An integer, or the text of a literal that is none.
pub data Number : Type 0 where
  integer : ℤ → Number
  float : String → Number

mutual
  pub data Value : Type 0 where
    null : Value
    bool : Bool → Value
    number : Number → Value
    string : String → Value
    array : Items → Value
    object : Fields → Value

  pub data Items : Type 0 where
    nil : Items
    cons : Value → Items → Items

  pub data Fields : Type 0 where
    end : Fields
    field : String → Value → Fields → Fields

abbrev pub items : Items → List Value
items nil = []
items (cons v vs) = v ∷ items vs

abbrev pub entries : Fields → List (String × Value)
entries end = []
entries (field k v fs) = (k, v) ∷ entries fs

abbrev pub of_entries : List (String × Value) → Fields
of_entries [] = end
of_entries ((k, v) ∷ m) = field k v (of_entries m)

abbrev pub map_values {ℓ κ} :
    {A : Type ℓ} {B : Type κ} → (A → B) → List (String × A) → List (String × B)
map_values f [] = []
map_values f ((k, a) ∷ m) = (k, f a) ∷ map_values f m

abbrev pub of_items : List Value → Items
of_items [] = nil
of_items (v ∷ vs) = cons v (of_items vs)

-- `Map::get`.
unfoldable pub get : String → Fields → Option Value
get k end = none
get k (field j v fs) = if j == k then some v else get k fs

-- `Map::insert`.
unfoldable pub put : String → Value → Fields → Fields
put k v end = field k v end
put k v (field j w fs) = if j == k then field j v fs else field j w (put k v fs)

-- `Map::remove`.
unfoldable pub delete : String → Fields → Fields
delete k end = end
delete k (field j w fs) = let rest = delete k fs in if j == k then rest else field j w rest

-- `Value::get` with a key.
abbrev pub member : String → Value → Option Value
member k (object fs) = get k fs
member k _ = none

abbrev pub as_object : Value → Option Fields
as_object (object fs) = some fs
as_object _ = none

abbrev pub as_str : Value → Option String
as_str (string s) = some s
as_str _ = none

abbrev pub as_bool : Value → Option Bool
as_bool (bool b) = some b
as_bool _ = none

abbrev pub as_array : Value → Option (List Value)
as_array (array vs) = some (items vs)
as_array _ = none

abbrev i64_of : ℤ → Option ℤ
i64_of (pos n) = if ltb n (2 ^ 63) then some (pos n) else none
i64_of (negsuc n) = if ltb n (2 ^ 63) then some (negsuc n) else none

unfoldable pub as_i64 : Value → Option ℤ
as_i64 (number (integer z)) = i64_of z
as_i64 _ = none

unfoldable pub as_u64 : Value → Option ℕ
as_u64 (number (integer (pos n))) = if ltb n (2 ^ 64) then some n else none
as_u64 _ = none

pub get-put :
    (k j : String) (v : Value) (fs : Fields)
    → get j (put k v fs) ≡ (if k == j then some v else get j fs)
unfolding get put
get-put k j v end = refl
get-put k j v (field i w fs) = ground (arith, eq_iff k j, eq_iff i k, eq_iff i j, get-put k j v fs)

pub get-delete :
    (k j : String) (fs : Fields) → get j (delete k fs) ≡ (if k == j then none else get j fs)
unfolding get delete
get-delete k j end = ground arith
get-delete k j (field i w fs) =
    ground (arith, eq_iff k j, eq_iff i k, eq_iff i j, get-delete k j fs)

pub get-lookup : (k : String) (fs : Fields) → get k fs ≡ lookup k (entries fs)
unfolding get lookup
get-lookup k end = refl
get-lookup k (field j v fs) = ground (arith, get-lookup k fs)
