-- ===== src/Extensions/Tests.antt =====
-- Extensions on concrete views and answers.
use cpex.Prelude.{
  Bool, ◌++◌, ◌≡◌, refl, inl, inr, true, false, String, none, some, List, [], ◌∷◌, ◌++◌,
}
use cpex.Prelude.Order.{In}
use cpex.Json.{Value, null, string, object, end, field, get}
use cpex.Result.{ok, Serde, parsed, refused}
use cpex.Ppe.{HttpExtension, SecurityExtension, Extensions, OwnedExtensions}
use cpex.Extensions.{Core, attach_extensions, owned_from_returned_slot, slot}
use cpex.Extensions.Outbound.{with_secrets, attach_extensions-blind}
use cpex.Extensions.Inbound.{IsCore, Confined, owned_from_returned_slot-Confined}

-- An engine that takes the first hops of a chain, and no more behind them.
abbrev extends_none : List Value → List Value → Bool
extends_none [] after = true
extends_none (hop ∷ before) after = false

abbrev copy : Extensions → OwnedExtensions
copy x = record {
  immutable = x.immutable;
  http = x.http;
  security = x.security;
  delegation = x.delegation;
  custom = x.custom;
}

-- Appends the label behind those that are there.
abbrev append_label : SecurityExtension → String → SecurityExtension
append_label s l = record s { labels = s.labels ++ (l ∷ []) }

in_append : (m l : String) (ls : List String) → In m ls → In m (ls ++ (l ∷ []))
in_append m l [] i = elim i [ ]
in_append m l (x ∷ ls) (inl e) = inl e
in_append m l (x ∷ ls) (inr i) = inr (in_append m l ls i)

abbrev no_security : SecurityExtension
no_security = record { labels = []; principal = null }

abbrev http_json : HttpExtension → Serde Value
http_json h = parsed (object end)

abbrev security_of : Value → Serde SecurityExtension
security_of (string l) = parsed (record no_security { labels = l ∷ [] })
security_of v = refused "no labels"

abbrev core : Core
core = record {
  http_json = http_json;
  security_json = λ s. parsed (object end);
  delegation_json = λ d. refused "no delegation";
  custom_json = λ c. parsed (object end);
  http_of = λ v. refused "no http";
  security_of = security_of;
  delegation_of = λ v. refused "no delegation";
  custom_of = λ v. refused "no object";
  cow_copy = copy;
  chain_extends = extends_none;
  add_label = append_label;
  default_security = no_security;
}

extends_none-kept :
    (before after : List Value)
    → extends_none before after ≡ true
    → (added : List Value) × (after ≡ before ++ added)
extends_none-kept [] after h = (after, refl)
extends_none-kept (hop ∷ before) after h = cc

core-IsCore : IsCore core
core-IsCore = record {
  chain_kept = extends_none-kept;
  copied = λ x. refl;
  principal_kept = λ s l. refl;
  labels_kept = λ s l m i. in_append m l s.labels i;
}

abbrev web : HttpExtension
web = record {
  request_headers = ("Cookie", "k") ∷ [];
  secret_headers = [];
  response_headers = [];
  status = none;
  method = some "GET";
  path = some "/";
  host = none;
  scheme = none;
}

abbrev view : Extensions
view = record {
  immutable = record {
    request = none;
    agent = none;
    mcp = none;
    completion = none;
    provenance = none;
    llm = none;
    framework = none;
    meta = none;
  };
  http = some web;
  security = some (record { labels = "pii" ∷ []; principal = string "ann" });
  delegation = none;
  custom = none;
  raw_credentials = none;
  http_write_token = false;
  labels_write_token = true;
  delegation_write_token = false;
}

attach_extensions-blind_example :
    attach_extensions core
      (object end)
      (with_secrets view web none (("Cookie", "k") ∷ []) [] (true, true, false))
    ≡ attach_extensions core
        (object end)
        (with_secrets view web none [] (("Set-Cookie", "s") ∷ []) (false, true, true))
attach_extensions-blind_example =
    attach_extensions-blind core (object end) view web none none (("Cookie", "k") ∷ []) [] []
      (("Set-Cookie", "s") ∷ []) (true, true, false) (false, true, true)

abbrev carried : Value
carried = object (
    field "extensions" (object (field "http" (object end) (field "security" (object end) end))) end)

abbrev labelled : OwnedExtensions
labelled = record (copy view) {
  security = some (record { labels = "pii" ∷ "phi" ∷ []; principal = string "ann" });
}

abbrev answer : Value
answer = object (field "security" (string "phi") end)

merged : owned_from_returned_slot core answer view ≡ ok (some labelled)
unfolding owned_from_returned_slot slot get
merged = refl

owned_from_returned_slot-Confined_example : Confined core view labelled
owned_from_returned_slot-Confined_example =
    owned_from_returned_slot-Confined core core-IsCore answer view labelled merged
