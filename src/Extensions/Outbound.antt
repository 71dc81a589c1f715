-- ===== src/Extensions/Outbound.antt =====
-- What of the extensions reaches the worker, of crates/cpex-hosts-python/src/extensions.rs.
use cpex.Prelude.{◌≡◌, refl, Bool, String, Option, none, some, [], ◌⊎◌}
use cpex.Json.{Value, object, Fields, get, put}
use cpex.Result.{parsed}
use cpex.Ppe.{Headers, HttpExtension, RawCredentials, Extensions}
use cpex.Prelude.Order.{In}
use cpex.CredentialPayloads.Headers.{filter_none_public}
use cpex.Extensions.{
  Core, sanitize_http, public_http_headers, to_wire, wire_slots, attach_extensions,
  extensions_field,
}

-- A view with other credentials, header maps and write tokens.
abbrev pub with_secrets :
    Extensions
    → HttpExtension
    → Option RawCredentials
    → Headers
    → Headers
    → Bool × Bool × Bool
    → Extensions
with_secrets x http credentials request response tokens = record x {
  http = some (record http { request_headers = request; response_headers = response });
  raw_credentials = credentials;
  http_write_token = tokens.0;
  labels_write_token = tokens.1;
  delegation_write_token = tokens.2;
}

sanitize_http-blind :
    (http : HttpExtension) (request response : Headers)
    → sanitize_http (record http { request_headers = request; response_headers = response })
      ≡ record http { request_headers = []; response_headers = [] }
unfolding sanitize_http public_http_headers
sanitize_http-blind http request response =
    rw (filter_none_public request none none, filter_none_public response none none) refl

-- The task that the worker gets does not depend on the raw credentials of the view, on the headers
-- of its request and response, or on any of the three write tokens: views that differ in those alone,
-- and so have the same `secret_headers`, give the same task, or the same error.
pub attach_extensions-blind :
    (core : Core) (task : Value) (x : Extensions) (http : HttpExtension)
    (c d : Option RawCredentials) (request response request' response' : Headers)
    (t u : Bool × Bool × Bool)
    → attach_extensions core task (with_secrets x http c request response t)
      ≡ attach_extensions core task (with_secrets x http d request' response' u)
unfolding attach_extensions to_wire
attach_extensions-blind core task x http c d request response request' response' t u =
    rw (sanitize_http-blind http request response, sanitize_http-blind http request' response') refl

-- The fields of the wire are slots that the view has, each under its own name and as it serializes.
abbrev pub Visible : Core → Extensions → Fields → Type 0
Visible core x wire =
    (k : String) (v : Value) → get k wire ≡ some v → In (k, some (parsed v)) (wire_slots core x)

-- What a task carries: nothing new, or an object under the extensions' key that has slots of the view
-- and no field for raw credentials, with the other fields as they were.
abbrev pub Carries : Core → Extensions → Value → Value → Type 0
Carries core x task task' =
    (task' ≡ task)
    ⊎ ((fs : Fields) × (wire : Fields) × (task ≡ object fs)
        × (task' ≡ object (put extensions_field (object wire) fs))
        × Visible core x wire
        × (get "raw_credentials" wire ≡ none))
