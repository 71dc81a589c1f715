-- ===== src/CredentialPayloads.antt =====
-- crates/cpex-hosts-python/src/credential_payloads.rs, shared part: header rules, what JSON value
-- counts as unset, and the lossless parse. The two payloads are in the modules below.
pub mod Identity
pub mod Delegation
pub mod Headers
pub mod Keys
mod Tests
pub mod Lossless
use Prim.Native.String.{◌++◌, len, slice}
use text.Mathlib.Text.{get?}
use cpex.Prelude.{
  ℕ, suc, ◌+◌, Bool, true, false, ◌&&◌, ◌||◌, not, String, Option, none, some, List, [], ◌∷◌,
  length, any, find, filter, eqb, ◌==◌, if◌then◌else◌,
}
use cpex.Text.{trim, trim_start, is_empty, eq_ignore_ascii_case, lowered_eq, contains}
use cpex.Json.{
  Value, null, bool, number, string, array, object, Items, nil, cons, Fields, end, field, items,
  get,
}
use cpex.HostError.{HostError, protocol, decimal}
use cpex.Result.{Result, ok, err, ◌>>=◌, ◌>>◌, Serde, map_err}
use cpex.Ppe

abbrev pub default_credential_header : String
default_credential_header = "authorization"

abbrev pub credential_headers : List String
credential_headers =
    "authorization" ∷ "proxy-authorization" ∷ "cookie" ∷ "set-cookie" ∷ "x-api-key" ∷ "x-auth-token"
    ∷ "x-access-token" ∷ "x-amzn-oidc-data" ∷ "x-goog-iap-jwt-assertion" ∷ "x-amz-security-token"
    ∷ []

unfoldable pub is_credential_name : String → Bool
unfolding lowered_eq
is_credential_name name = any (lowered_eq name) credential_headers

abbrev pub Validators : Type 0
Validators = List (String × (String → Bool))

-- No header is approved by default.
abbrev pub public_header_validators : Validators
public_header_validators = []

unfoldable pub header_entry : Ppe.Headers → String → Option (String × String)
unfolding eq_ignore_ascii_case
header_entry headers name = find (λ h. eq_ignore_ascii_case h.0 name) headers

unfoldable pub strip_bearer : String → String
unfolding trim_start eq_ignore_ascii_case
strip_bearer value =
    let trimmed = trim_start value in
    elim (get? trimmed 0 7) [
      | none ↦ trimmed
      | some prefix ↦
          if eq_ignore_ascii_case prefix "bearer " then slice trimmed 7 (len trimmed) else trimmed
    ]

abbrev is_source : String → Option String → Bool
is_source name none = false
is_source name (some source) = eq_ignore_ascii_case name source

abbrev mentions : String → String → Option String → Bool
mentions name value none = false
mentions name value (some token) = contains name token || contains value token

unfoldable pub is_public_header : String → String → Option String → Option String → Bool
unfolding is_credential_name
is_public_header name value source token =
    if is_credential_name name || is_source name source || mentions name value token
    then false
    else any (λ v. lowered_eq name v.0 && v.1 value) public_header_validators

unfoldable pub is_unset : Value → Bool
unfolding is_empty
is_unset null = true
is_unset (bool b) = not b
is_unset (number n) = false
is_unset (string s) = is_empty s
is_unset (array nil) = true
is_unset (array (cons v vs)) = false
is_unset (object end) = true
is_unset (object (field k v fs)) = false

-- `protocol` and `unrepresentable` of the source.
unfoldable pub fault : String → String → HostError
fault hook message = protocol ("hook '" ++ (hook ++ ("': " ++ message)))

unfoldable pub unrepresentable : String → String → HostError
unfolding fault
unrepresentable hook name = fault hook (
    "the plugin returned `"
    ++ (name ++ "`, which the PPE payload has nowhere to hold; refusing to drop it silently"))

unfoldable pub as_fields : String → Value → Result Fields
as_fields hook (object fs) = ok fs
as_fields hook _ = err (fault hook "the modified payload is not a JSON object")

-- The loop over the returned keys: a set field that neither list names is refused.
unfoldable pub check_keys : String → (String → Bool) → Fields → Result (Unit {0})
check_keys hook known end = ok tt
check_keys hook known (field key value rest) =
    let more = check_keys hook known rest in
    if not (known key) && not (is_unset value) then err (unrepresentable hook key) else more

abbrev or_else {ℓ} : {A : Type ℓ} → Option A → Option A → Option A
or_else none o = o
or_else (some a) o = some a

abbrev in_object : String → String → String
in_object path key = path ++ ("." ++ key)

abbrev in_array : String → ℕ → String
in_array path i = path ++ ("[" ++ (decimal i ++ "]"))

unfoldable mutual
  pub first_dropped : Value → Value → String → Option String
  first_dropped (object fields) (object kept) path = first_dropped_fields fields kept path
  first_dropped (array xs) (array kept) path =
      if eqb (length (items xs)) (length (items kept))
      then first_dropped_items xs kept path 0
      else some path
  first_dropped _ _ path = none

  pub first_dropped_fields : Fields → Fields → String → Option String
  first_dropped_fields end kept path = none
  first_dropped_fields (field key value rest) kept path =
      let more = first_dropped_fields rest kept path in
      let here : Option String = elim (get key kept) [
        | none ↦ some (in_object path key)
        | some w ↦ first_dropped value w (in_object path key)
      ] in
      if is_unset value then more else or_else here more

  pub first_dropped_items : Items → Items → String → ℕ → Option String
  first_dropped_items (cons v vs) (cons w ws) path i =
      or_else (first_dropped v w (in_array path i)) (first_dropped_items vs ws path (suc i))
  first_dropped_items _ _ path i = none

abbrev pub refuse_dropped {ℓ} : {T : Type ℓ} → String → Option String → T → Result T
refuse_dropped hook none t = ok t
refuse_dropped hook (some path) t = err (unrepresentable hook path)

-- `parse` and `print` are the serializer's functions at the type `T`.
unfoldable pub parse_lossless {ℓ} :
    {T : Type ℓ} → (Value → Serde T) → (T → Serde Value) → String → String → Value → Result T
unfolding unrepresentable first_dropped fault
parse_lossless parse print hook name value = do
  t ←
      map_err (parse value)
        (λ _. fault hook ("`" ++ (name ++ "` does not match the PPE type it maps to")))
  back ← map_err (print t) (λ e. protocol ("could not re-serialize `" ++ (name ++ ("`: " ++ e))))
  refuse_dropped hook (first_dropped value back name) t

abbrev pub to_json : Serde Value → Result Value
to_json s = map_err s (λ e. protocol ("could not serialize a delegation payload field: " ++ e))
