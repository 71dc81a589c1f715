-- ===== src/Plugin/Respawn/Budget.antt =====
-- The budget of respawns in crates/cpex-hosts-python/src/plugin.rs.
use cpex.Prelude.{
  ℕ, ◌≡◌, refl, ap, ◌+◌, ◌*◌, ◌≤◌, ◌<◌, true, false, Option, none, some, List, [], ◌∷◌, leb,
  if◌then◌else◌, All, ◌++◌, Bool-cases, inl, inr, arith,
}
use cpex.Plugin.Respawn.{
  RespawnState, new, expired, reserve, try_reserve, max_respawn_attempts, respawn_budget_reset_secs,
  nanos_per_sec,
}

-- The attempts that are granted to workers found dead at these instants, with none that answers between.
abbrev pub reserve_all : RespawnState → List ℕ → List (Option ℕ)
reserve_all s [] = []
reserve_all s (now ∷ later) =
    let (granted, s') = try_reserve s now in granted ∷ reserve_all s' later

-- The attempts from the next one up to the last of the budget, and none from there.
abbrev pub up_to_budget : ℕ → List ℕ → List (Option ℕ)
up_to_budget spent [] = []
up_to_budget spent (now ∷ later) =
    if leb max_respawn_attempts spent
    then none ∷ up_to_budget spent later
    else some (spent + 1) ∷ up_to_budget (spent + 1) later

abbrev pub InWindow : ℕ → ℕ → Type 0
InWindow started now = now < started + respawn_budget_reset_secs * nanos_per_sec

open_window : (started now : ℕ) → InWindow started now → expired (some started) now ≡ false
unfolding expired
open_window started now h = ground arith

closed_window :
    (started now : ℕ)
    → started + respawn_budget_reset_secs * nanos_per_sec ≤ now
    → expired (some started) now ≡ true
unfolding expired
closed_window started now h = ground arith

reserve_all-InWindow :
    (spent started : ℕ) (times : List ℕ)
    → All (InWindow started) times
    → reserve_all (record { attempts = spent; window_started = some started }) times
      ≡ up_to_budget spent times
unfolding try_reserve reserve
reserve_all-InWindow spent started [] all = refl
reserve_all-InWindow spent started (now ∷ later) (here, all) =
    elim (Bool-cases (leb max_respawn_attempts spent)) [
      | inl gone ↦
          rw (open_window started now here, gone)
            (ap (λ rest. none ∷ rest) (reserve_all-InWindow spent started later all))
      | inr left ↦
          rw (open_window started now here, left)
            (ap (λ rest. some (spent + 1) ∷ rest)
              (reserve_all-InWindow (spent + 1) started later all))
    ]

-- Behind a window that is over, the budget is as it was at first, whatever was spent.
within :
    (spent started after : ℕ) (times times' : List ℕ)
    → All (InWindow started) times
    → started + respawn_budget_reset_secs * nanos_per_sec ≤ after
    → All (InWindow after) times'
    → reserve_all
        (record { attempts = spent; window_started = some started })
        (times ++ (after ∷ times'))
      ≡ up_to_budget spent times ++ (some 1 ∷ up_to_budget 1 times')
unfolding try_reserve reserve
within spent started after [] times' all late all' =
    rw (closed_window started after late)
      (ap (λ rest. some 1 ∷ rest) (reserve_all-InWindow 1 after times' all'))
within spent started after (now ∷ later) times' (here, all) late all' =
    elim (Bool-cases (leb max_respawn_attempts spent)) [
      | inl gone ↦
          rw (open_window started now here, gone)
            (ap (λ rest. none ∷ rest) (within spent started after later times' all late all'))
      | inr left ↦
          rw (open_window started now here, left)
            (ap (λ rest. some (spent + 1) ∷ rest)
              (within (spent + 1) started after later times' all late all'))
    ]

-- From a full budget, workers that are found dead within sixty seconds of the first are launched again three times, as
-- attempts 1, 2 and 3, and then not again. One that is found dead after that time begins the same anew, so that it and
-- those found dead within sixty seconds of it are launched again three times. No worker answered a request in between.
pub reserve_all-new :
    (started after : ℕ) (times times' : List ℕ)
    → All (InWindow started) times
    → started + respawn_budget_reset_secs * nanos_per_sec ≤ after
    → All (InWindow after) times'
    → reserve_all new (started ∷ (times ++ (after ∷ times')))
      ≡ some 1 ∷ (up_to_budget 1 times ++ (some 1 ∷ up_to_budget 1 times'))
unfolding try_reserve expired reserve
reserve_all-new started after times times' all late all' =
    ap (λ rest. some 1 ∷ rest) (within 1 started after times times' all late all')
