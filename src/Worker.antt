-- ===== src/Worker.antt =====
-- crates/cpex-hosts-python/src/worker.rs: the transport between the host and one worker process. The
-- reader task routes response frames to the callers that wait for them; here are its frames, its
-- table of pending requests, the envelope of an answer, the handshake and the tail of stderr.
pub mod Routing
pub mod Lines
pub mod Isolation
pub mod Tail
pub mod Handshake
pub mod Sending
mod Tests
use Prim.Native.String.{◌++◌}
use cpex.Prelude.{
  ◌≡◌, ℕ, Bool, true, false, String, Option, none, some, List, [], ◌∷◌, any, filter, not, ◌==◌, eqb,
  length, drop, if◌then◌else◌,
}
use cpex.Text.{is_empty, trim, after, before}
use cpex.Json.{Value, object, string, Fields, get, put, delete, member, as_str, as_array, as_u64}
use cpex.HostError.{HostError, worker_error, response_too_large, worker_died, protocol}
use cpex.Result.{Result, ok, err, Serde, parsed, refused}
use mathlib.Core.List.{◌++◌ as append}

abbrev pub request_id_field : String
request_id_field = "request_id"

abbrev pub stderr_retain_lines : ℕ
stderr_retain_lines = 40

-- What became of the one-shot sender of a request: it was used, or it was dropped unused.
pub data Outcome : Type 0 where
  answered : Result Value → Outcome
  dropped : Outcome

-- The requests whose sender is in the table, the flag that senders read, and the senders that left.
pub record Channel : Type 0 where
  pub pending : List String
  pub alive : Bool
  pub closed : List (String × Outcome)

-- What a bounded read gives.
pub data Frame : Type 0 where
  line : String → Frame
  oversized : (prefix : String) → (scanned : ℕ) → Frame
  eof : Frame
  failed : (error : String) → Frame

unfoldable pub opened : Channel
opened = record { pending = []; alive = true; closed = [] }

unfoldable pub is_pending : String → Channel → Bool
is_pending id c = any (λ p. p == id) c.pending

abbrev pub without : String → List String → List String
without id ids = filter (λ p. not (p == id)) ids

-- The sender leaves the table for `outcome`.
unfoldable pub close : String → Outcome → Channel → Channel
close id outcome c =
    if is_pending id c
    then record c { pending = without id c.pending; closed = (id, outcome) ∷ c.closed }
    else c

abbrev pub all_closed : Outcome → List String → List (String × Outcome) → List (String × Outcome)
all_closed outcome [] closed = closed
all_closed outcome (id ∷ ids) closed = (id, outcome) ∷ all_closed outcome ids closed

-- `drain` and `clear` of the table.
unfoldable pub close_all : Outcome → Channel → Channel
close_all outcome c = record c { pending = []; closed = all_closed outcome c.pending c.closed }

-- The registration of a request that is about to be written.
unfoldable pub register : String → Channel → Channel
register id c = record c { pending = id ∷ c.pending }

-- A timeout and a failed write take the request out again.
unfoldable pub forget : String → Channel → Channel
forget id c = close id dropped c

route_to : Option String → Value → Channel → Channel
route_to none response c = c
route_to (some id) response c = close id (answered (ok response)) c

abbrev pub id_of : Option Value → Option String
id_of none = none
id_of (some v) = as_str v

route_parsed : Serde Value → Channel → Channel
route_parsed (refused e) c = c
route_parsed (parsed response) c = route_to (id_of (member request_id_field response)) response c

-- A line of stdout: blank lines, lines that are no JSON and answers without an id are skipped.
unfoldable pub read_line : (String → Serde Value) → String → Channel → Channel
unfolding route_parsed route_to
read_line from_str text c =
    if is_empty (trim text) then c else route_parsed (from_str (trim text)) c

opened_quote : Option String → Option String
opened_quote none = none
opened_quote (some rest) = before 34 rest

past : String → Option String → Option String
past key none = none
past key (some text) = after text key

-- The id in the prefix of a frame that was cut: what stands in quotes after the key and a colon.
unfoldable pub request_id_from_prefix : String → Option String
unfolding opened_quote past
request_id_from_prefix prefix = opened_quote (past "\"" (past ":" (after prefix "\"request_id\"")))

fail_owner : Option String → HostError → Channel → Channel
fail_owner none e c = close_all (answered (err e)) c
fail_owner (some id) e c =
    if is_pending id c then close id (answered (err e)) c else close_all (answered (err e)) c

-- A frame over the limit: its owner is failed, and every request where no pending owner is known.
unfoldable pub read_oversized : (limit : ℕ) → String → ℕ → Channel → Channel
unfolding fail_owner
read_oversized limit prefix scanned c =
    fail_owner (request_id_from_prefix prefix) (response_too_large scanned limit) c

-- The end of the reader: first the flag, then the table.
unfoldable pub mark_dead : Channel → Channel
mark_dead c = record c { alive = false }

unfoldable pub read_end : Channel → Channel
read_end c = close_all dropped (mark_dead c)

-- One turn of the reader's loop.
unfoldable pub read_frame : (String → Serde Value) → ℕ → Frame → Channel → Channel
read_frame from_str limit (line text) c = read_line from_str text c
read_frame from_str limit (oversized prefix scanned) c = read_oversized limit prefix scanned c
read_frame from_str limit eof c = read_end c
read_frame from_str limit (failed e) c = read_end c

-- The steps of the callers and of the reader, in any order; `ids` are the requests registered so
-- far. A request id is a new UUID.
pub data Run (from_str : String → Serde Value) (limit : ℕ) : List String → Channel → Type 0 where
  start : Run from_str limit [] opened
  send :
      {ids : List String} {c : Channel} (id : String)
      → any (λ p. p == id) ids ≡ false
      → Run from_str limit ids c
      → Run from_str limit (id ∷ ids) (register id c)
  give_up :
      {ids : List String} {c : Channel} (id : String)
      → Run from_str limit ids c
      → Run from_str limit ids (forget id c)
  read :
      {ids : List String} {c : Channel} (f : Frame)
      → c.alive ≡ true
      → Run from_str limit ids c
      → Run from_str limit ids (read_frame from_str limit f c)

abbrev text_of : Option Value → Option String
text_of none = none
text_of (some v) = as_str v

abbrev is_error : Option String → Bool
is_error none = false
is_error (some status) = status == "error"

abbrev pub or_else {ℓ} : {A : Type ℓ} → A → Option A → A
or_else a none = a
or_else a (some b) = b

interpret_fields : Fields → Result Value
interpret_fields fields =
    if is_error (text_of (get "status" fields))
    then err (
        worker_error
          (or_else "worker reported an error with no message" (text_of (get "message" fields))))
    else ok (object fields)

-- The envelope of an answer, without its request id.
unfoldable pub interpret_response : Value → Result Value
unfolding interpret_fields
interpret_response (object fields) = interpret_fields (delete request_id_field fields)
interpret_response v = ok v

pub record WorkerCapabilities : Type 0 where
  pub protocol_version : ℕ
  pub features : List String
  pub cpex_version : Option String

unfoldable pub no_capabilities : WorkerCapabilities
no_capabilities = record { protocol_version = 0; features = []; cpex_version = none }

unfoldable pub has : String → WorkerCapabilities → Bool
has feature c = any (λ f. f == feature) c.features

abbrev pub strings : List Value → List String
strings [] = []
strings (string s ∷ vs) = s ∷ strings vs
strings (v ∷ vs) = strings vs

abbrev pub listed : Option Value → List String
listed none = []
listed (some v) = or_strings (as_array v)
  where
    or_strings : Option (List Value) → List String
    or_strings none = []
    or_strings (some vs) = strings vs

abbrev version_of : Option Value → ℕ
version_of none = 0
version_of (some v) = or_else 0 (as_u64 v)

-- What the handshake reports for the outcome of its task.
unfoldable pub capabilities : Result Value → Result WorkerCapabilities
capabilities (ok response) = ok (record {
  protocol_version = version_of (member "protocol_version" response);
  features = listed (member "features" response);
  cpex_version = text_of (member "cpex_version" response);
})
capabilities (err (worker_error message)) = ok no_capabilities
capabilities (err e) = err e

-- A line of stderr is added to the retained ones, the oldest of which goes when the tail is full.
unfoldable pub retain : List String → String → List String
retain tail text =
    if eqb (length tail) stderr_retain_lines
    then append (drop 1 tail) (text ∷ [])
    else append tail (text ∷ [])

unfoldable pub retain_all : List String → List String → List String
retain_all tail [] = tail
retain_all tail (text ∷ texts) = retain_all (retain tail text) texts

abbrev joined : List String → String
joined [] = ""
joined (l ∷ []) = l
joined (l ∷ ls) = l ++ (" | " ++ joined ls)

-- The error of a dead worker, with what it wrote last.
unfoldable pub died : List String → String → HostError
died [] context = worker_died context
died tail context = worker_died (context ++ ("; recent worker stderr: " ++ joined tail))
