-- ===== src/HostError/Tests.antt =====
-- Host errors on concrete processes.
use cpex.Prelude.{◌≡◌, ◌⊎◌, ◌≤◌, ◌<◌, ◌-◌, ℕ, true, false, none}
use Prim.Native.String.{len, slice}
use cpex.HostError.{ProcessOutput, stderr_excerpt, stderr_excerpt_bytes}
use cpex.HostError.Excerpt.{IsFirstBoundary, stderr_excerpt-tail}

abbrev failed : ProcessOutput
failed = record { exit_code = none; stderr = "no module named cpex" }

stderr_excerpt-tail_example :
    ((len failed.stderr ≤ stderr_excerpt_bytes) × (stderr_excerpt failed ≡ (failed.stderr, false)))
    ⊎ ((stderr_excerpt_bytes < len failed.stderr)
        × ((i : ℕ) × IsFirstBoundary failed.stderr (len failed.stderr - stderr_excerpt_bytes) i
            × (stderr_excerpt failed ≡ (slice failed.stderr i (len failed.stderr), true))))
stderr_excerpt-tail_example = stderr_excerpt-tail failed
