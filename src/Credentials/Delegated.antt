-- ===== src/Credentials/Delegated.antt =====
-- `build_delegated` of crates/cpex-hosts-python/src/credentials.rs: which delegated token a plugin
-- receives.
pub mod Selection
pub mod Order
use Prim.Native.Nat.{compare as compare_ℕ, Ordering}
use Prim.Native.String.{◌++◌}
use cpex.Prelude.{
  ℕ, Bool, true, false, ◌&&◌, String, Option, none, some, List, [], ◌∷◌, filter, ◌==◌,
  if◌then◌else◌,
}
use cpex.Prelude.Order.{◌then_with◌, compare_option, compare_list, compare_text, sort_by}
use cpex.Text.{trim, is_empty}
use cpex.Json.{Value, member, as_str}
use cpex.HostError.{credential}
use cpex.Result.{Result, ok, err, ◌>>=◌, ok_or}
use cpex.Ppe.{DelegationMode, RawDelegatedToken, DelegationKey, Extensions}
use cpex.Credentials.{DelegatedCredential, cap_read_delegated, refusal}

abbrev pub Candidate : Type 0
Candidate = DelegationKey × RawDelegatedToken

abbrev then_member : String → Option Value → Option Value
then_member key none = none
then_member key (some v) = member key v

abbrev then_str : Option Value → Option String
then_str none = none
then_str (some v) = as_str v

-- `task["payload"]["target_audience"]`, where that is a text.
unfoldable pub requested_audience : Value → Option String
requested_audience task = then_str (then_member "target_audience" (member "payload" task))

abbrev pub is_for : Option String → Candidate → Bool
is_for none c = true
is_for (some audience) (key, token) = key.audience == audience && token.audience == audience

unfoldable pub mode_rank : DelegationMode → ℕ
mode_rank DelegationMode.on_behalf_of_user = 0
mode_rank DelegationMode.as_this_workload = 1
mode_rank (DelegationMode.unlisted name) = 2

unfoldable pub compare_keys : Candidate → Candidate → Ordering
compare_keys (left, _) (right, _) =
    compare_ℕ (mode_rank left.mode) (mode_rank right.mode)
    then_with compare_option compare_text left.subject_id right.subject_id
    then_with compare_list compare_text left.scopes right.scopes

abbrev first : List Candidate → Option Candidate
first [] = none
first (c ∷ cs) = some c

unfoldable pub pick_delegated : List Candidate → Option String → Option Candidate
pick_delegated tokens audience = first (sort_by compare_keys (filter (is_for audience) tokens))

abbrev scope_text : Option String → String
scope_text none = ""
scope_text (some audience) = " for audience '" ++ (audience ++ "'")

unfoldable pub delegated_from_token : RawDelegatedToken → String → Result DelegatedCredential
unfolding trim is_empty
delegated_from_token t hook =
    if is_empty (trim t.token)
    then err (
        credential (
          "the delegated token for hook '"
          ++ (hook ++ "' is empty — refusing to send an empty credential")))
    else ok (record {
      token = t.token;
      outbound_header = t.outbound_header;
      audience = t.audience;
      scopes = t.scopes;
    })

unfoldable pub build_delegated : Extensions → String → Option String → Result DelegatedCredential
build_delegated extensions hook audience = do
  raw ← ok_or extensions.raw_credentials (
      refusal cap_read_delegated hook
        "the request carries no raw-credentials extension — refusing to dispatch without the token it asked for")
  chosen ← ok_or (pick_delegated raw.delegated_tokens audience) (
      refusal cap_read_delegated hook (
        "no delegated token"
        ++ (scope_text audience
            ++ " is present — refusing to dispatch without it, and refusing to substitute a token minted for a different audience")))
  delegated_from_token chosen.1 hook
