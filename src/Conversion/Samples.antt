-- ===== src/Conversion/Samples.antt =====
-- A serializer, a parser and a view to run the conversions of crates/cpex-hosts-python/src on.
use cpex.Prelude.{true, false, none, []}
use cpex.Json.{Value, null}
use cpex.Result.{Serde, parsed, refused}
use cpex.Ppe.{Extensions}
use cpex.Extensions.{Core}
use cpex.Conversion.{Parser}

abbrev pub reads_nothing {ℓ} : {A : Type ℓ} → Value → Serde A
reads_nothing v = refused "unread"

abbrev pub writes_nothing {ℓ} : {A : Type ℓ} → A → Serde Value
writes_nothing a = refused "unwritten"

abbrev pub core : Core
core = record {
  http_json = writes_nothing;
  security_json = writes_nothing;
  delegation_json = writes_nothing;
  custom_json = writes_nothing;
  http_of = reads_nothing;
  security_of = reads_nothing;
  delegation_of = reads_nothing;
  custom_of = reads_nothing;
  cow_copy = λ x. record {
    immutable = x.immutable;
    http = x.http;
    security = x.security;
    delegation = x.delegation;
    custom = x.custom;
  };
  chain_extends = λ before after. true;
  add_label = λ s l. s;
  default_security = record { labels = []; principal = null };
}

abbrev pub reparse : Parser
reparse t v = parsed (parsed v)

abbrev pub view : Extensions
view = record {
  immutable = record {
    request = none;
    agent = none;
    mcp = none;
    completion = none;
    provenance = none;
    llm = none;
    framework = none;
    meta = none;
  };
  http = none;
  security = none;
  delegation = none;
  custom = none;
  raw_credentials = none;
  http_write_token = false;
  labels_write_token = false;
  delegation_write_token = false;
}
