-- ===== src/HostError/Excerpt.antt =====
-- What `stderr_excerpt` of crates/cpex-hosts-python/src/error.rs keeps of a child's stderr.
use Prim.Native.String.{len, slice}
use text.Mathlib.Text.{is_char_boundary}
use text.Mathlib.TextPositions.{boundary-len}
use native.Mathlib.Decide.{ℕ_discrete}
use cpex.Prelude.{
  ap, ◌≢◌, ℕ, zero, suc, ◌+◌, ◌-◌, ◌≤◌, ◌<◌, ◌≡◌, ◌⊎◌, inl, inr, true, false, String, arith, leb,
  leb→le, Bool-cases,
}
use cpex.HostError.{ProcessOutput, stderr_excerpt_bytes, next_boundary, stderr_excerpt}

-- The first character boundary at or behind `start`.
pub record IsFirstBoundary (s : String) (start i : ℕ) : Type 0 where
  pub boundary : is_char_boundary s i ≡ true
  pub after : start ≤ i
  pub within : i ≤ len s
  pub first : (j : ℕ) → start ≤ j → j < i → is_char_boundary s j ≡ false

stop_at :
    (s : String) (start : ℕ)
    → start ≤ len s
    → is_char_boundary s start ≡ true
    → IsFirstBoundary s start start
stop_at s start h b = record {
  boundary = b;
  after = omega arith;
  within = h;
  first = λ j p q. absurd (omega arith);
}

-- The loop gives the first boundary, if its fuel covers the bytes left.
next_boundary-IsFirstBoundary :
    (fuel : ℕ) (s : String) (start : ℕ)
    → start ≤ len s
    → len s ≤ start + fuel
    → IsFirstBoundary s start (next_boundary fuel s start)
unfolding next_boundary
next_boundary-IsFirstBoundary zero s start h k =
    stop_at s start h (let e : start ≡ len s = omega arith in rw e (boundary-len s))
next_boundary-IsFirstBoundary (suc fuel) s start h k =
    elim (Bool-cases (is_char_boundary s start)) [
      | inl b ↦ rw (stops b) (stop_at s start h b)
      | inr b ↦
          rw (goes_on b)
            (extend b (next_boundary-IsFirstBoundary fuel s (start + 1) (inside b) (omega arith)))
    ]
  where
    off_end : is_char_boundary s start ≡ false → start ≢ len s
    off_end b e = cc (b, boundary-len s, e, ap (is_char_boundary s) e)

    inside : is_char_boundary s start ≡ false → start + 1 ≤ len s
    inside b = let apart : start ≢ len s = off_end b in omega arith

    stops : is_char_boundary s start ≡ true → next_boundary (suc fuel) s start ≡ start
    stops b = ground arith

    goes_on :
        is_char_boundary s start ≡ false
        → next_boundary (suc fuel) s start ≡ next_boundary fuel s (start + 1)
    goes_on b = let apart : start + 1 ≤ len s = inside b in ground arith

    extend :
        is_char_boundary s start ≡ false
        → {i : ℕ} → IsFirstBoundary s (start + 1) i
        → IsFirstBoundary s start i
    extend b f = record {
      boundary = f.boundary;
      after = omega arith;
      within = f.within;
      first = λ j p q. elim (ℕ_discrete j start) [
        | yes e ↦ rw e b
        | no apart ↦ f.first j (omega arith) q
      ];
    }

-- A stderr of at most 4096 bytes is kept whole and unmarked. A longer one is marked as cut and is
-- kept from an offset to its end: the first character boundary that leaves at most 4096 bytes.
pub stderr_excerpt-tail :
    (o : ProcessOutput)
    → ((len o.stderr ≤ stderr_excerpt_bytes) × (stderr_excerpt o ≡ (o.stderr, false)))
      ⊎ ((stderr_excerpt_bytes < len o.stderr)
          × ((i : ℕ) × IsFirstBoundary o.stderr (len o.stderr - stderr_excerpt_bytes) i
              × (stderr_excerpt o ≡ (slice o.stderr i (len o.stderr), true))))
unfolding stderr_excerpt
stderr_excerpt-tail o = elim (Bool-cases (leb (len o.stderr) stderr_excerpt_bytes)) [
  | inl fits ↦ inl (leb→le _ _ fits, rw fits)
  | inr cut ↦ inr (
    long cut,
    (
      _,
      next_boundary-IsFirstBoundary stderr_excerpt_bytes o.stderr
          (len o.stderr - stderr_excerpt_bytes) (omega arith) (omega arith),
      rw cut,
    ),
  )
]
  where
    long : leb (len o.stderr) stderr_excerpt_bytes ≡ false → stderr_excerpt_bytes < len o.stderr
    long cut = ground arith
