-- ===== src/CredentialPayloads/Keys.antt =====
-- Which returned objects `check_keys` lets through: the loops over the returned keys in
-- crates/cpex-hosts-python/src/credential_payloads.rs.
use cpex.Prelude.{◌≡◌, ◌↔◌, ◌⊎◌, refl, true, String, Bool, All, arith}
use cpex.Json.{Value, Fields, end, field, entries, object}
use cpex.Result.{ok}
use cpex.CredentialPayloads.{is_unset, check_keys, as_fields}

-- A field is known, or holds nothing.
abbrev pub IsHeld : (String → Bool) → String × Value → Type 0
IsHeld known kv = (known kv.0 ≡ true) ⊎ (is_unset kv.1 ≡ true)

-- The check passes exactly when every field is known or holds nothing.
pub check_keys_iff :
    (hook : String) (known : String → Bool) (fs : Fields)
    → (check_keys hook known fs ≡ ok tt) ↔ All (IsHeld known) (entries fs)
unfolding check_keys
check_keys_iff hook known end = (λ h. tt, λ h. refl)
check_keys_iff hook known (field k v fs) =
    let ih = check_keys_iff hook known fs in (λ h. ground (arith, ih.0), λ h. ground (arith, ih.1))

-- Only an object has fields.
pub as_fields-object :
    (hook : String) (v : Value) (fs : Fields) → as_fields hook v ≡ ok fs → v ≡ object fs
unfolding as_fields
as_fields-object hook (object gs) fs h = ground arith
as_fields-object hook _ fs h = cc
