-- ===== src/Worker/Sending.antt =====
-- `send_task`, `shutdown` and `resolve_worker_script` of crates/cpex-hosts-python/src/worker.rs: what a caller does to
-- the table of pending requests, and the end of a worker.
pub mod Bounded
use Prim.Native.String.{◌++◌, len}
use cpex.Prelude.{
  ℕ, Bool, true, false, not, String, Option, none, some, List, [], ◌∷◌, map, find, ltb, ◌==◌,
  if◌then◌else◌,
}
use mathlib.Core.List.{◌++◌ as append}
use cpex.Text.{starts_with}
use cpex.Json.{Value, null, bool, number, string, array, object, Fields, end, field, put}
use cpex.HostError.{HostError, protocol, task_too_large, timeout, worker_died, worker_start}
use cpex.Result.{Result, ok, err, ◌>>=◌, ok_or, Serde, parsed, refused, map_err}
use cpex.Venv.FileSystem.{Disk, join, path_exists}
use cpex.Worker.{Channel, register, forget, died, interpret_response, request_id_field}

with_id : String → Value → Result Value
unfolding put
with_id id (object fs) = ok (object (put request_id_field (string id) fs))
with_id id task = err (protocol "task must be a JSON object")

within_limit : ℕ → String → Result String
within_limit limit line =
    if ltb limit (len line) then err (task_too_large (len line) limit) else ok line

-- The line of a task, with its new id.
unfoldable pub task_line :
    (to_string : Value → Serde String) (limit : ℕ) (id : String) → Value → Result String
unfolding with_id within_limit
task_line to_string limit id task = do
  with_request_id ← with_id id task
  line ← map_err (to_string with_request_id) (λ e. protocol ("could not serialize task: " ++ e))
  within_limit limit line

registered :
    (writable : Bool) (stderr : List String) → String → String → Channel → Result String × Channel
registered true stderr id line c = (ok line, register id c)
registered false stderr id line c = (
  err (died stderr "writer task is gone — the worker is no longer accepting tasks"),
  forget id (register id c),
)

register_line :
    (writable : Bool) (stderr : List String)
    → String
    → Result String
    → Channel
    → Result String × Channel
register_line writable stderr id (err e) c = (err e, c)
register_line writable stderr id (ok line) c = registered writable stderr id line c

-- Up to the write: the line that is handed to the writer, and the channel with the request in its table.
unfoldable pub start_task :
    (to_string : Value → Serde String) (limit : ℕ) (writable : Bool) (stderr : List String)
    (id : String)
    → Value
    → Channel
    → Result String × Channel
unfolding register_line registered
start_task to_string limit writable stderr id task c =
    if not c.alive
    then (err (died stderr "worker process is no longer running"), c)
    else register_line writable stderr id (task_line to_string limit id task) c

-- How the wait for an answer ends.
pub data Wait : Type 0 where
  delivered : Result Value → Wait
  sender_dropped : Wait
  elapsed : Wait

unfoldable pub finish_task :
    (timeout_secs : ℕ) (stderr : List String) (id : String)
    → Wait
    → Channel
    → Result Value × Channel
finish_task timeout_secs stderr id (delivered (ok response)) c = (interpret_response response, c)
finish_task timeout_secs stderr id (delivered (err e)) c = (err e, c)
finish_task timeout_secs stderr id sender_dropped c =
    (err (died stderr "worker exited while the request was in flight"), c)
finish_task timeout_secs stderr id elapsed c = (err (timeout timeout_secs), forget id c)

-- How the wait for the process ends, which has the grace period.
pub data Exit : Type 0 where
  exited : Exit
  not_awaited : (error : String) → Exit
  grace_over : (kill_error : Option String) → Exit

end_of : Exit → Result (Unit {0})
end_of exited = ok tt
end_of (not_awaited e) = err (worker_died ("could not wait on the worker process: " ++ e))
end_of (grace_over none) = ok tt
end_of (grace_over (some e)) = err (worker_died ("could not kill the unresponsive worker: " ++ e))

-- `child` tells whether the process was not taken yet; it is not there behind the call. The task that asks the worker
-- to exit is written where the process is there.
unfoldable pub shutdown : Exit → (child : Bool) → Result (Unit {0}) × Bool
unfolding end_of
shutdown ended false = (ok tt, false)
shutdown ended true = (end_of ended, false)

below_lib : (entries : List String) (relative : String) → List String
below_lib entries relative = map (λ e. join (join e "site-packages") relative) entries

-- `entries` are the paths that `read_dir` lists in `lib` of the environment.
unfoldable pub resolve_worker_script :
    (entries : List String) (venv_path relative : String) → Disk → Result String
unfolding below_lib path_exists
resolve_worker_script entries venv_path relative d =
    if starts_with relative "/"
    then ok relative
    else ok_or
        (find (λ p. path_exists p d)
          (append (below_lib entries relative) (
            join (join (join venv_path "Lib") "site-packages") relative
            ∷ join venv_path relative
            ∷ [])))
        (worker_start (
          "could not find '"
          ++ (relative
              ++ ("' in the venv at "
                  ++ (venv_path
                      ++ " — is `cpex` installed in it? (a plugin's requirements file must pull in the framework that ships worker.py)")))))
