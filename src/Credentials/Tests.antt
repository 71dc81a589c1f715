-- ===== src/Credentials/Tests.antt =====
-- Credentials on concrete tasks, payloads and tokens.
use cpex.Prelude.{◌≡◌, refl, false, none, some, List, [], ◌∷◌}
use cpex.Json.{Value, object, end, field, pos, put}
use cpex.Result.{ok}
use cpex.Ppe.{
  TokenKind, TokenRole, DelegationMode, RawInboundToken, RawDelegatedToken, DelegationKey,
  Extensions,
}
use cpex.Payload.{generic}
use cpex.Hooks.{payload_kind_for_hook}
use cpex.Credentials.{
  InboundCredential, DelegatedCredential, cap_read_inbound, insert_dto, dto_json, debug_inbound,
  debug_delegated, inbound_from_token, build_inbound, pick_inbound,
}
use cpex.Credentials.Delegated.{Candidate, pick_delegated}
use cpex.Credentials.Delegated.Selection.{Picks, pick_delegated-IsPick}
use cpex.Credentials.Delegated.Order.{for_audience, unscoped_pick_by_order}
use cpex.Credentials.Attach.{attach_credential_for_payload, attach_credential, inbound_dto}
use cpex.Credentials.Attach.Gate.{Gated, capability_for, attach_credential_for_payload-Gated}
use cpex.Credentials.Redaction.{debug_blind}

abbrev user_token : RawInboundToken
user_token = record { token = "t"; source_header = "authorization"; kind = TokenKind.jwt }

abbrev view : Extensions
view = record {
  immutable = record {
    request = none;
    agent = none;
    mcp = none;
    completion = none;
    provenance = none;
    llm = none;
    framework = none;
    meta = none;
  };
  http = none;
  security = none;
  delegation = none;
  custom = none;
  raw_credentials =
      some (record { inbound_tokens = (TokenRole.user, user_token) ∷ []; delegated_tokens = [] });
  http_write_token = false;
  labels_write_token = false;
  delegation_write_token = false;
}

abbrev inbound_credential : InboundCredential
inbound_credential = record {
  token = "t";
  source_header = "authorization";
  kind = "jwt";
  headers = some (("authorization", "t") ∷ []);
}

abbrev carrying : Value
carrying = object (field "credential" (dto_json (inbound_dto inbound_credential)) end)

attached :
    attach_credential_for_payload
      (object end)
      "identity.resolve"
      (generic (object end))
      view
      (cap_read_inbound ∷ [])
    ≡ ok carrying
unfolding attach_credential_for_payload payload_kind_for_hook attach_credential build_inbound
    pick_inbound inbound_from_token insert_dto put
attached = refl

attach_credential_for_payload-Gated_example :
    Gated
      (capability_for (payload_kind_for_hook "identity.resolve") (generic (object end)))
      (cap_read_inbound ∷ [])
      (object end)
      carrying
attach_credential_for_payload-Gated_example =
    attach_credential_for_payload-Gated (generic (object end)) (object end) carrying
      "identity.resolve" view (cap_read_inbound ∷ []) attached

abbrev key : DelegationKey
key = record {
  mode = DelegationMode.on_behalf_of_user;
  subject_id = none;
  audience = "a";
  scopes = "read" ∷ [];
}

abbrev delegated_token : RawDelegatedToken
delegated_token = record {
  token = "d";
  outbound_header = "Authorization";
  audience = "a";
  scopes = "read" ∷ [];
  expires_at = pos 9;
}

abbrev candidates : List Candidate
candidates = (key, delegated_token) ∷ []

pick_delegated-IsPick_example : Picks candidates (some "a") (pick_delegated candidates (some "a"))
pick_delegated-IsPick_example = pick_delegated-IsPick candidates (some "a")

-- Two tokens for one audience, in both orders.
abbrev for_ann : Candidate
for_ann = (record key { subject_id = some "ann" }, delegated_token)

abbrev two : List Candidate
two = (key, delegated_token) ∷ for_ann ∷ []

abbrev two_reversed : List Candidate
two_reversed = for_ann ∷ (key, delegated_token) ∷ []

unscoped_pick_by_order_example :
    (pick_delegated
        ((for_audience key "a", delegated_token) ∷ (for_audience key "b", delegated_token) ∷ [])
        none
      ≡ some (for_audience key "a", delegated_token))
    × (pick_delegated
          ((for_audience key "b", delegated_token) ∷ (for_audience key "a", delegated_token) ∷ [])
          none
        ≡ some (for_audience key "b", delegated_token))
unscoped_pick_by_order_example = unscoped_pick_by_order key "a" "b" delegated_token delegated_token

abbrev delegated_credential : DelegatedCredential
delegated_credential = record {
  token = "d";
  outbound_header = "Authorization";
  audience = "a";
  scopes = "read" ∷ [];
}

debug_blind_example :
    (debug_inbound (record inbound_credential { headers = some (("authorization", "t") ∷ []) })
      ≡ debug_inbound
          (record inbound_credential { token = "u"; headers = some (("authorization", "u") ∷ []) }))
    × (debug_delegated delegated_credential
        ≡ debug_delegated (record delegated_credential { token = "u" }))
debug_blind_example =
    debug_blind inbound_credential delegated_credential "u" (("authorization", "t") ∷ [])
      (("authorization", "u") ∷ []) refl
