-- ===== src/HostError.antt =====
-- crates/cpex-hosts-python/src/error.rs: the host's errors, their codes and details, and the
-- excerpt of a child's stderr. Lengths and offsets of texts are in bytes of UTF-8.
pub mod Excerpt
mod Tests
use Prim.Native.Nat.{◌/◌, ◌%◌}
use Prim.Native.String.{◌++◌, len, slice}
use text.Mathlib.Text.{is_char_boundary}
use cpex.Prelude.{
  ℕ, zero, suc, ◌+◌, ◌-◌, ◌*◌, ◌^◌, Bool, true, false, String, Option, none, some, List, [], ◌∷◌,
  min, leb, ltb, not, ◌&&◌, if◌then◌else◌, insert,
}
use cpex.Text.{trim, is_empty}
use cpex.Json.{ℤ, pos, negsuc, Number, integer, Value, null, bool, number, string}

-- A digit's text; the decimal text of a number, as `format!` prints it.
digit : ℕ → String
digit zero = "0"
digit (suc zero) = "1"
digit (suc (suc zero)) = "2"
digit (suc (suc (suc zero))) = "3"
digit (suc (suc (suc (suc zero)))) = "4"
digit (suc (suc (suc (suc (suc zero))))) = "5"
digit (suc (suc (suc (suc (suc (suc zero)))))) = "6"
digit (suc (suc (suc (suc (suc (suc (suc zero))))))) = "7"
digit (suc (suc (suc (suc (suc (suc (suc (suc zero)))))))) = "8"
digit _ = "9"

decimal_fuel : ℕ → ℕ → String
unfolding digit
decimal_fuel zero n = ""
decimal_fuel (suc f) n =
    let rest = decimal_fuel f (n / 10) in if ltb n 10 then digit n else rest ++ digit (n % 10)

unfoldable pub decimal : ℕ → String
unfolding decimal_fuel
decimal n = decimal_fuel (suc n) n

decimal_int : ℤ → String
unfolding decimal
decimal_int (pos n) = decimal n
decimal_int (negsuc n) = "-" ++ decimal (suc n)

abbrev pub stderr_excerpt_bytes : ℕ
stderr_excerpt_bytes = 4096

pub record ProcessOutput : Type 0 where
  pub exit_code : Option ℤ
  pub stderr : String

-- `decode` is `String::from_utf8_lossy`.
unfoldable pub from_output : (List ℕ → String) → Option ℤ → List ℕ → ProcessOutput
unfolding trim
from_output decode status stderr = record { exit_code = status; stderr = trim (decode stderr) }

-- `while start < len && !is_char_boundary(start) { start += 1 }`, with the bytes left as fuel.
next_boundary : ℕ → String → ℕ → ℕ
next_boundary zero s start = start
next_boundary (suc fuel) s start =
    let further = next_boundary fuel s (start + 1) in
    if ltb start (len s) && not (is_char_boundary s start) then further else start

unfoldable pub stderr_excerpt : ProcessOutput → String × Bool
unfolding next_boundary
stderr_excerpt o = if leb (len o.stderr) stderr_excerpt_bytes then (o.stderr, false) else (
  slice o.stderr (next_boundary stderr_excerpt_bytes o.stderr (len o.stderr - stderr_excerpt_bytes))
      (len o.stderr),
  true,
)

status_text : Option ℤ → String
unfolding decimal_int
status_text (some code) = "exited " ++ decimal_int code
status_text none = "was killed by a signal"

unfoldable pub describe : ProcessOutput → String
unfolding status_text stderr_excerpt is_empty
describe o =
    if is_empty (stderr_excerpt o).0
    then status_text o.exit_code
    else status_text o.exit_code ++ (": " ++ (stderr_excerpt o).0)

abbrev pub Details : Type 0
Details = List (String × Value)

exit_code_value : Option ℤ → Value
exit_code_value (some code) = number (integer code)
exit_code_value none = null

unfoldable pub write_details : ProcessOutput → Details → Details
unfolding exit_code_value stderr_excerpt insert
write_details o details =
    let with_excerpt =
      insert "stderr_excerpt" (string (stderr_excerpt o).0)
        (insert "exit_code" (exit_code_value o.exit_code) details) in
    if (stderr_excerpt o).1
    then insert "stderr_truncated" (bool true) with_excerpt
    else with_excerpt

pub data HostError : Type 0 where
  config : (message : String) → HostError
  venv_build : (message : String) → HostError
  venv_command : (step context : String) (output : ProcessOutput) → HostError
  worker_start : (message : String) → HostError
  worker_died : (message : String) → HostError
  timeout : (timeout_secs : ℕ) → HostError
  task_too_large : (size limit : ℕ) → HostError
  response_too_large : (size limit : ℕ) → HostError
  worker_error : (message : String) → HostError
  protocol : (message : String) → HostError
  credential : (message : String) → HostError
  legacy_shim : (hook message : String) → HostError

unfoldable pub display : HostError → String
unfolding describe decimal
display (config m) = "configuration error: " ++ m
display (venv_build m) = "venv build failed: " ++ m
display (venv_command step context output) =
    "venv build failed: `" ++ (step ++ ("` on " ++ (context ++ (" " ++ describe output))))
display (worker_start m) = "worker failed to start: " ++ m
display (worker_died m) = "worker process died: " ++ m
display (timeout secs) = "worker did not respond within " ++ (decimal secs ++ "s")
display (task_too_large size limit) =
    "serialized task is "
    ++ (decimal size ++ (" bytes, over the " ++ (decimal limit ++ "-byte max_content_size")))
display (response_too_large size limit) =
    "worker response frame is at least "
    ++ (decimal size
        ++ (" bytes, over the "
            ++ (decimal limit
                ++ "-byte max_content_size; the frame was discarded rather than buffered")))
display (worker_error m) = "worker returned an error: " ++ m
display (protocol m) = "protocol error: " ++ m
display (credential m) = "credential error: " ++ m
display (legacy_shim hook m) =
    "hook '"
    ++ (hook ++ ("' cannot be served by this worker, which predates cmf hook support: " ++ m))

unfoldable pub code : HostError → String
code (config m) = "config"
code (venv_build m) = "venv_build_failed"
code (venv_command step context output) = "venv_build_failed"
code (worker_start m) = "worker_start_failed"
code (worker_died m) = "worker_died"
code (timeout secs) = "timeout"
code (task_too_large size limit) = "task_too_large"
code (response_too_large size limit) = "response_too_large"
code (worker_error m) = "worker_error"
code (protocol m) = "protocol_error"
code (credential m) = "credential_error"
code (legacy_shim hook m) = "legacy_shim_unsupported"

size_details : ℕ → ℕ → Details
unfolding insert
size_details size limit =
    insert "limit_bytes" (number (integer (pos limit)))
      (insert "size_bytes" (number (integer (pos size))) [])

unfoldable pub details : HostError → Details
unfolding size_details write_details insert
details (venv_command step context output) = write_details output (insert "step" (string step) [])
details (timeout secs) = insert "timeout_secs" (number (integer (pos secs))) []
details (task_too_large size limit) = size_details size limit
details (response_too_large size limit) = size_details size limit
details _ = []

abbrev pub u64_max : ℕ
u64_max = 2 ^ 64 - 1

-- The variants of the framework's error that the host builds; `source` and `proto_error_code` are
-- always `None` here.
pub data PluginError : Type 0 where
  timed_out : (plugin_name : String) (timeout_ms : ℕ) → PluginError
  misconfigured : (message : String) → PluginError
  execution : (plugin_name message code : String) (details : Details) → PluginError

unfoldable pub into_plugin_error : HostError → String → PluginError
unfolding display code details
into_plugin_error (timeout secs) plugin = timed_out plugin (min (secs * 1000) u64_max)
into_plugin_error (config m) plugin =
    misconfigured ("plugin '" ++ (plugin ++ ("' (isolated_venv): " ++ m)))
into_plugin_error e plugin = execution plugin (display e) (code e) (details e)
