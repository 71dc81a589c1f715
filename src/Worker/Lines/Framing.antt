-- ===== src/Worker/Lines/Framing.antt =====
-- The bounded line reader of crates/cpex-hosts-python/src/worker.rs against a reader that has all
-- bytes at once and no bound.
use cpex.Prelude.{
  ◌≡◌, refl, sym, ◌∙◌, ap, inl, inr, ℕ, zero, suc, ◌+◌, ◌-◌, ◌≤◌, Bool, true, false, String, Option,
  none, some, List, [], ◌∷◌, ◌++◌, length, take, ltb, eqb, if◌then◌else◌, arith, All, length-append,
  Bool-cases, Option-cases,
}
use cpex.Worker.{Frame, line, oversized, eof}
use cpex.Worker.Lines.{
  newline, line_part, after_newline, Reading, reading_start, absorb, strip_cr, finish_line,
  read_fills, read_bounded_line,
}

abbrev pub flat : List (List ℕ) → List ℕ
flat [] = []
flat (bs ∷ fills) = bs ++ flat fills

-- The frame for a whole line.
abbrev pub frame_of : (List ℕ → String) → ℕ → List ℕ → Frame
frame_of decode limit l =
    if ltb limit (length l)
    then oversized (decode (strip_cr (take limit l))) (length l)
    else line (decode (strip_cr l))

-- The frame of a line, with what stands behind its newline: without a newline, a line that has no
-- byte is the end of the stream.
abbrev pub framed : (List ℕ → String) → ℕ → Option (List ℕ) → List ℕ → Frame
framed decode limit (some rest) l = frame_of decode limit l
framed decode limit none l = if eqb (length l) 0 then eof else frame_of decode limit l

-- The frame of a stream that is known in full, behind a part `l` of its first line.
abbrev pub first_frame : (List ℕ → String) → ℕ → List ℕ → List ℕ → Frame
first_frame decode limit l bytes = framed decode limit (after_newline bytes) (l ++ line_part bytes)

abbrev pub or_nil : Option (List ℕ) → List ℕ
or_nil none = []
or_nil (some bs) = bs

-- The loop's variables after the part `l` of a line.
abbrev reading_of : ℕ → List ℕ → Reading
reading_of limit l = record {
  buffer = take limit l;
  scanned = length l;
  over = ltb limit (length l);
}

append_nil : (a : List ℕ) → a ++ [] ≡ a
append_nil [] = refl
append_nil (x ∷ a) = ap (λ (r : List ℕ). x ∷ r) (append_nil a)

append_assoc : (a b c : List ℕ) → (a ++ b) ++ c ≡ a ++ (b ++ c)
append_assoc [] b c = refl
append_assoc (x ∷ a) b c = ap (λ (r : List ℕ). x ∷ r) (append_assoc a b c)

take_none : (n : ℕ) (b : List ℕ) → n ≡ 0 → take n b ≡ []
take_none n b e = rw e refl

take-append : (n : ℕ) (a b : List ℕ) → take n (a ++ b) ≡ take n a ++ take (n - length a) b
take-append zero [] b = refl
take-append (suc n) [] b = rw (less_zero (suc n)) refl
  where
    less_zero : (m : ℕ) → m - 0 ≡ m
    less_zero m = omega arith
take-append zero (x ∷ a) b = sym (take_none (0 - suc (length a)) b (omega arith))
take-append (suc n) (x ∷ a) b =
    let less : suc n - suc (length a) ≡ n - length a = omega arith in
    ap (λ (r : List ℕ). x ∷ r) (take-append n a b ∙ rw less refl)

take_all : (n : ℕ) (a : List ℕ) → length a ≤ n → take n a ≡ a
take_all zero [] h = refl
take_all (suc n) [] h = refl
take_all zero (x ∷ a) h = ground arith
take_all (suc n) (x ∷ a) h = ap (λ (r : List ℕ). x ∷ r) (take_all n a (omega (arith, h)))

Reading-eq : (r s : Reading) → r.buffer ≡ s.buffer → r.scanned ≡ s.scanned → r.over ≡ s.over → r ≡ s
Reading-eq r s e f g = ground arith

absorb-reading :
    (limit : ℕ) (l chunk : List ℕ)
    → absorb limit chunk (reading_of limit l) ≡ reading_of limit (l ++ chunk)
unfolding absorb
absorb-reading limit l chunk = elim (Bool-cases (ltb limit (length l))) [
  | inl t ↦
      let room : limit - length l ≡ 0 = ground arith in
      let over : true ≡ ltb limit (length l + length chunk) = ground arith in
      rw (length-append l chunk, take-append limit l chunk, t)
        (Reading-eq _ _
          (sym (append_nil (take limit l))
            ∙ ap (λ (r : List ℕ). take limit l ++ r)
                (sym (take_none (limit - length l) chunk room)))
          refl over)
  | inr f ↦
      let fits : take limit l ≡ l = take_all limit l (ground arith) in
      rw (length-append l chunk, take-append limit l chunk, f, fits) refl
]

within-append :
    (a b : List ℕ)
    → after_newline a ≡ none
    → (line_part (a ++ b) ≡ a ++ line_part b) × (after_newline (a ++ b) ≡ after_newline b)
unfolding line_part after_newline
within-append [] b h = (refl, refl)
within-append (x ∷ a) b h = elim (Bool-cases (eqb x newline)) [
  | inl t ↦ ground arith
  | inr f ↦
      let (same, next) = within-append a b (rw f at h) in
      rw f (ap (λ (r : List ℕ). x ∷ r) same, next)
]

behind-append :
    (a b rest : List ℕ)
    → after_newline a ≡ some rest
    → (line_part (a ++ b) ≡ line_part a) × (after_newline (a ++ b) ≡ some (rest ++ b))
unfolding line_part after_newline
behind-append [] b rest h = ground arith
behind-append (x ∷ a) b rest h = elim (Bool-cases (eqb x newline)) [
  | inl t ↦ rw t (refl, ap (λ (r : List ℕ). some (r ++ b)) (some_injective a rest (rw t at h)))
  | inr f ↦
      let (same, next) = behind-append a b rest (rw f at h) in
      rw f (ap (λ (r : List ℕ). x ∷ r) same, next)
]
  where
    some_injective : (r s : List ℕ) → some r ≡ some s → r ≡ s
    some_injective r s e = ground arith

line_part_all : (a : List ℕ) → after_newline a ≡ none → line_part a ≡ a
unfolding line_part after_newline
line_part_all [] h = refl
line_part_all (x ∷ a) h = ground (arith, line_part_all a)

finish_line-reading :
    (decode : List ℕ → String) (limit : ℕ) (l : List ℕ)
    → finish_line decode (reading_of limit l) ≡ frame_of decode limit l
unfolding finish_line
finish_line-reading decode limit l = elim (Bool-cases (ltb limit (length l))) [
  | inl t ↦ rw t refl
  | inr f ↦ rw (f, take_all limit l (ground arith)) refl
]

abbrev pub filled : List ℕ → Bool
filled [] = false
filled (b ∷ bs) = true

-- What a read gives, as frame and as the bytes it leaves, for a stream whose bytes are known.
abbrev pub Reads : (List ℕ → String) → ℕ → List ℕ → List ℕ → Frame × List (List ℕ) → Type 0
Reads decode limit l bytes result =
    (result.0 ≡ first_frame decode limit l bytes) × (flat result.1 ≡ or_nil (after_newline bytes))

-- One fill `a`, behind the part `l` of a line.
fill-Reads :
    (decode : List ℕ → String) (limit : ℕ) (l a : List ℕ) (fills : List (List ℕ))
    (next : Frame × List (List ℕ))
    → (after_newline a ≡ none → Reads decode limit (l ++ a) (flat fills) next)
    → Reads decode limit l (a ++ flat fills) (elim (after_newline a) [
      | some rest ↦
          (finish_line decode (absorb limit (line_part a) (reading_of limit l)), rest ∷ fills)
      | none ↦ next
    ])
fill-Reads decode limit l a fills next go = elim (Option-cases (after_newline a)) [
  | inl e ↦
      let (parts, behind) = within-append a (flat fills) e in
      let line_same = append_assoc l a (line_part (flat fills)) in
      rw (e, behind, parts, sym line_same) (go e)
  | inr (rest, e) ↦
      let (parts, behind) = behind-append a (flat fills) rest e in
      rw (e, behind, parts, absorb-reading limit l (line_part a))
        (finish_line-reading decode limit (l ++ line_part a), refl)
]

read_fills-Reads :
    (decode : List ℕ → String) (limit : ℕ) (l : List ℕ) (fills : List (List ℕ))
    → All (λ bs. filled bs ≡ true) fills
    → Reads decode limit l (flat fills) (read_fills decode limit (reading_of limit l) fills)
unfolding read_fills after_newline line_part
read_fills-Reads decode limit l [] h = rw (append_nil l) (ended, refl)
  where
    ended :
        (if eqb (length l) 0 then eof else finish_line decode (reading_of limit l))
        ≡ (if eqb (length l) 0 then eof else frame_of decode limit l)
    ended = rw (finish_line-reading decode limit l) refl
read_fills-Reads decode limit l ([] ∷ fills) h = ground arith
read_fills-Reads decode limit l ((b ∷ bs) ∷ fills) (h, hs) =
    fill-Reads decode limit l (b ∷ bs) fills
      (read_fills decode limit (absorb limit (line_part (b ∷ bs)) (reading_of limit l)) fills)
      (λ e.
        let absorbed : absorb limit (line_part (b ∷ bs)) (reading_of limit l)
            ≡ reading_of limit (l ++ (b ∷ bs)) =
          ap (λ (c : List ℕ). absorb limit c (reading_of limit l)) (line_part_all (b ∷ bs) e)
          ∙ absorb-reading limit l (b ∷ bs) in
        rw absorbed (read_fills-Reads decode limit (l ++ (b ∷ bs)) fills hs))

-- However the stream's bytes are spread over non-empty fills, a bounded read gives the frame of the
-- bytes up to the first newline, as if all were there at once: the whole line within the limit, or
-- its first `limit` bytes with its true length; and it leaves the bytes behind that newline.
pub read_bounded_line-Reads :
    (decode : List ℕ → String) (limit : ℕ) (fills : List (List ℕ))
    → All (λ bs. filled bs ≡ true) fills
    → Reads decode limit [] (flat fills) (read_bounded_line decode limit fills)
unfolding read_bounded_line reading_start
read_bounded_line-Reads decode limit fills h =
    rw (start_reading limit) (read_fills-Reads decode limit [] fills h)
  where
    start_reading : (n : ℕ) → reading_start ≡ reading_of n []
    start_reading zero = refl
    start_reading (suc n) = ground arith
