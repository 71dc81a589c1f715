-- ===== src/Worker/Lines.antt =====
-- The bounded line reader of crates/cpex-hosts-python/src/worker.rs, on the bytes that the stream's
-- fill buffer holds, one list for each time that it is filled.
pub mod Framing
use cpex.Prelude.{
  ℕ, ◌+◌, ◌-◌, Bool, true, false, String, Option, none, some, List, [], ◌∷◌, ◌++◌, length, take,
  ltb, eqb, if◌then◌else◌,
}
use cpex.Worker.{Frame, line, oversized, eof}

abbrev pub newline : ℕ
newline = 10

-- The bytes in front of the first newline, or all.
unfoldable pub line_part : List ℕ → List ℕ
line_part [] = []
line_part (b ∷ bs) = let rest = line_part bs in if eqb b newline then [] else b ∷ rest

-- What stands behind the first newline.
unfoldable pub after_newline : List ℕ → Option (List ℕ)
after_newline [] = none
after_newline (b ∷ bs) = let rest = after_newline bs in if eqb b newline then some bs else rest

-- The local variables of the loop.
pub record Reading : Type 0 where
  pub buffer : List ℕ
  pub scanned : ℕ
  pub over : Bool

unfoldable pub reading_start : Reading
reading_start = record { buffer = []; scanned = 0; over = false }

-- A part of the line: all of it is counted, and what there is room for is kept.
unfoldable pub absorb : (limit : ℕ) → List ℕ → Reading → Reading
absorb limit chunk r = if r.over then record r { scanned = r.scanned + length chunk } else record {
  buffer = r.buffer ++ take (limit - length r.buffer) chunk;
  scanned = r.scanned + length chunk;
  over = ltb limit (r.scanned + length chunk);
}

unfoldable pub strip_cr : List ℕ → List ℕ
strip_cr [] = []
strip_cr (b ∷ []) = if eqb b 13 then [] else b ∷ []
strip_cr (b ∷ bs) = b ∷ strip_cr bs

-- The decoding is `String::from_utf8_lossy`.
unfoldable pub finish_line : (List ℕ → String) → Reading → Frame
finish_line decode r =
    if r.over
    then oversized (decode (strip_cr r.buffer)) r.scanned
    else line (decode (strip_cr r.buffer))

-- With what is left unread. An empty fill is the end of the stream.
unfoldable pub read_fills :
    (List ℕ → String) → (limit : ℕ) → Reading → List (List ℕ) → Frame × List (List ℕ)
read_fills decode limit r [] = (if eqb r.scanned 0 then eof else finish_line decode r, [])
read_fills decode limit r ([] ∷ fills) =
    (if eqb r.scanned 0 then eof else finish_line decode r, fills)
read_fills decode limit r ((b ∷ bs) ∷ fills) =
    let r' = absorb limit (line_part (b ∷ bs)) r in
    let next = read_fills decode limit r' fills in
    elim (after_newline (b ∷ bs)) [
      | some rest ↦ (finish_line decode r', rest ∷ fills)
      | none ↦ next
    ]

unfoldable pub read_bounded_line :
    (List ℕ → String) → (limit : ℕ) → List (List ℕ) → Frame × List (List ℕ)
read_bounded_line decode limit fills = read_fills decode limit reading_start fills
