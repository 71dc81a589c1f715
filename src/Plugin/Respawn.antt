-- ===== src/Plugin/Respawn.antt =====
-- `RespawnState` of crates/cpex-hosts-python/src/plugin.rs: how often, and after which delay, a worker that died is
-- launched again. An instant is a number of nanoseconds.
pub mod Budget
use cpex.Prelude.{
  ℕ, suc, ◌+◌, ◌-◌, ◌*◌, ◌^◌, min, Bool, true, false, Option, none, some, List, [], ◌∷◌, leb,
  if◌then◌else◌,
}

abbrev pub max_respawn_attempts : ℕ
max_respawn_attempts = 3

abbrev pub respawn_backoff_base_ms : ℕ
respawn_backoff_base_ms = 100

abbrev pub respawn_budget_reset_secs : ℕ
respawn_budget_reset_secs = 60

abbrev pub nanos_per_sec : ℕ
nanos_per_sec = 1000000000

pub record RespawnState : Type 0 where
  pub attempts : ℕ
  pub window_started : Option ℕ

abbrev pub new : RespawnState
new = record { attempts = 0; window_started = none }

-- `duration_since` is zero for a later instant; at least as many seconds as whole ones are compared.
expired : Option ℕ → ℕ → Bool
expired none now = false
expired (some started) now = leb (respawn_budget_reset_secs * nanos_per_sec) (now - started)

abbrev get_or : Option ℕ → ℕ → ℕ
get_or none now = now
get_or (some started) now = started

reserve : RespawnState → ℕ → Option ℕ × RespawnState
reserve s now = if leb max_respawn_attempts s.attempts then (none, s) else (
  some (s.attempts + 1),
  record { attempts = s.attempts + 1; window_started = some (get_or s.window_started now) },
)

unfoldable pub try_reserve : RespawnState → (now : ℕ) → Option ℕ × RespawnState
unfolding expired reserve
try_reserve s now = reserve (if expired s.window_started now then new else s) now

unfoldable pub record_success : RespawnState → RespawnState
record_success s = new

unfoldable pub note_worker_healthy : RespawnState → RespawnState
unfolding record_success
note_worker_healthy s = if leb 1 s.attempts then record_success s else s

-- The delay before an attempt, a 64-bit number that saturates.
unfoldable pub backoff_ms : (attempt : ℕ) → ℕ
backoff_ms attempt = min (respawn_backoff_base_ms * 2 ^ (attempt - 1)) (2 ^ 64 - 1)
