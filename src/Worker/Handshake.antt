-- ===== src/Worker/Handshake.antt =====
-- The handshake of crates/cpex-hosts-python/src/worker.rs: which features a worker is taken to have.
use cpex.Prelude.{
  ◌≡◌, refl, sym, ◌∙◌, ap, ◌↔◌, true, false, Bool, String, Option, none, some, List, [], ◌∷◌, any,
  ◌==◌, ◌||◌, arith,
}
use cpex.Json.{Value, null, bool, number, string, array, object, Items, member, items}
use cpex.HostError.{worker_error}
use cpex.Result.{Result, ok, err}
use cpex.Worker.{WorkerCapabilities, capabilities, has, no_capabilities, strings, listed}

abbrev pub is_text : String → Value → Bool
is_text s (string t) = t == s
is_text s v = false

-- A response lists a feature: its `features` are an array that has the text among its elements.
abbrev pub Lists : String → Value → Type 0
Lists feature response =
    (vs : Items) × (member "features" response ≡ some (array vs))
    × (any (is_text feature) (items vs) ≡ true)

any-strings : (s : String) (vs : List Value) → any (λ f. f == s) (strings vs) ≡ any (is_text s) vs
any-strings s [] = refl
any-strings s (null ∷ vs) = any-strings s vs
any-strings s (bool b ∷ vs) = any-strings s vs
any-strings s (number n ∷ vs) = any-strings s vs
any-strings s (string t ∷ vs) = ap (λ (b : Bool). (t == s) || b) (any-strings s vs)
any-strings s (array xs ∷ vs) = any-strings s vs
any-strings s (object fs ∷ vs) = any-strings s vs

abbrev pub OptionLists : String → Option Value → Type 0
OptionLists s v = (vs : Items) × (v ≡ some (array vs)) × (any (is_text s) (items vs) ≡ true)

listed-OptionLists :
    (s : String) (v : Option Value) → any (λ f. f == s) (listed v) ≡ true → OptionLists s v
listed-OptionLists s none h = ground arith
listed-OptionLists s (some (array vs)) h = (vs, refl, sym (any-strings s (items vs)) ∙ h)
listed-OptionLists s (some v) h = ground arith

OptionLists-listed :
    (s : String) (v : Option Value) → OptionLists s v → any (λ f. f == s) (listed v) ≡ true
OptionLists-listed s v (vs, e, h) =
    ap (λ (o : Option Value). any (λ f. f == s) (listed o)) e ∙ any-strings s (items vs) ∙ h

ok_injective : (a b : WorkerCapabilities) → ok a ≡ ok b → a ≡ b
ok_injective a b e = ground arith

-- A worker is taken to have a feature exactly if it answered the handshake without an error, with a
-- list that has the feature's name; a worker that answered with an error has none.
pub capabilities-has_iff :
    (r : Result Value) (c : WorkerCapabilities) (feature : String)
    → capabilities r ≡ ok c
    → (has feature c ≡ true) ↔ ((response : Value) × (r ≡ ok response) × Lists feature response)
unfolding capabilities has no_capabilities
capabilities-has_iff (ok response) c feature h = (
  λ yes. (
    response,
    refl,
    listed-OptionLists feature (member "features" response) (rw (sym (ok_injective _ _ h)) at yes),
  ),
  λ (given, same, l). rw (sym (ok_injective _ _ h)) (
      OptionLists-listed feature (member "features" response)
        (rw (sym (same_value given same)) at l)),
)
  where
    same_value : (given : Value) → ok response ≡ ok given → response ≡ given
    same_value given e = ground arith
capabilities-has_iff (err (worker_error m)) c feature h =
    (λ yes. absurd_has (rw (sym (ok_injective _ _ h)) at yes), λ (given, same, l). ground arith)
  where
    absurd_has : {A : Type 0} → false ≡ true → A
    absurd_has e = ground arith
capabilities-has_iff (err e) c feature h = (λ yes. ground arith, λ l. ground arith)
