-- ===== src/Result.antt =====
-- `Result<T, HostError>` of the Python host, and `Result<T, serde_json::Error>` of its serializer.
use cpex.Prelude.{◌≡◌, refl, ap, ◌∙◌, String, Option, none, some, ◌⊎◌, inl, inr, arith}
use cpex.HostError.{HostError}

pub data Result {ℓ} (A : Type ℓ) : Type ℓ where
  ok : A → Result A
  err : HostError → Result A

-- `?`: the first error is the answer.
infixl 5 ◌>>=◌
abbrev pub ◌>>=◌ {ℓ κ} : {T : Type ℓ} {U : Type κ} → Result T → (T → Result U) → Result U
err failure >>= next = err failure
ok value >>= next = next value

-- `?` on a result whose value is not used.
infixl 5 ◌>>◌
abbrev pub ◌>>◌ {κ} : {U : Type κ} → Result (Unit {0}) → Result U → Result U
first >> next = first >>= λ done. next

-- `ok_or_else`.
abbrev pub ok_or {ℓ} : {A : Type ℓ} → Option A → HostError → Result A
ok_or none e = err e
ok_or (some a) e = ok a

-- What `serde_json` answers, with the text of its error.
pub data Serde {ℓ} (A : Type ℓ) : Type ℓ where
  parsed : A → Serde A
  refused : (error : String) → Serde A

-- `map_err` with a message that may quote the serializer's error.
abbrev pub map_err {ℓ} : {A : Type ℓ} → Serde A → (String → HostError) → Result A
map_err (parsed a) f = ok a
map_err (refused e) f = err (f e)

-- A successful bind has a successful first part.
pub >>=-eq-ok {ℓ κ} :
    {T : Type ℓ} {U : Type κ} (first : Result T) (next : T → Result U) {answer : U}
    → (first >>= next) ≡ ok answer
    → (value : T) × (first ≡ ok value) × (next value ≡ ok answer)
>>=-eq-ok (err failure) next h = cc
>>=-eq-ok (ok value) next h = (value, refl, h)

-- Chains that agree in the first part and from each of its values on.
pub >>=-eq {ℓ κ} :
    {T : Type ℓ} {U : Type κ} (first first' : Result T) (next next' : T → Result U)
    → first ≡ first'
    → ((value : T) → next value ≡ next' value)
    → (first >>= next) ≡ (first' >>= next')
>>=-eq (err failure) first' next next' e f = ap (λ r. r >>= next') e
>>=-eq (ok value) first' next next' e f = f value ∙ ap (λ r. r >>= next') e

pub ok-injective {ℓ} : {A : Type ℓ} (a b : A) → ok a ≡ ok b → a ≡ b
ok-injective a b e = ground arith

pub Serde-cases {ℓ} :
    {A : Type ℓ} (s : Serde A) → ((e : String) × (s ≡ refused e)) ⊎ ((a : A) × (s ≡ parsed a))
Serde-cases (refused e) = inl (e, refl)
Serde-cases (parsed a) = inr (a, refl)

pub Result-cases {ℓ} :
    {A : Type ℓ} (r : Result A) → ((e : HostError) × (r ≡ err e)) ⊎ ((a : A) × (r ≡ ok a))
Result-cases (err e) = inl (e, refl)
Result-cases (ok a) = inr (a, refl)
