-- ===== src/Worker/Tail.antt =====
-- The retained stderr of crates/cpex-hosts-python/src/worker.rs.
use cpex.Prelude.{
  ◌≡◌, refl, ◌∙◌, sym, ap, inl, inr, ℕ, zero, ◌-◌, ◌+◌, ◌≤◌, suc, String, List, [], ◌∷◌, ◌++◌,
  length, drop, length-append, eqb, eqb→eq, Bool-cases, arith,
}
use cpex.Worker.{retain, retain_all, stderr_retain_lines}

-- The last `stderr_retain_lines` lines of a list.
abbrev pub last_lines : List String → List String
last_lines texts = drop (length texts - stderr_retain_lines) texts

append_assoc :
    (a : List String) (x : String) (b : List String) → (a ++ (x ∷ [])) ++ b ≡ a ++ (x ∷ b)
append_assoc [] x b = refl
append_assoc (y ∷ a) x b = ap (λ (r : List String). y ∷ r) (append_assoc a x b)

append_nil : (a : List String) → a ++ [] ≡ a
append_nil [] = refl
append_nil (x ∷ a) = ap (λ (r : List String). x ∷ r) (append_nil a)

drop-suc : (n m : ℕ) (x : String) (xs : List String) → m ≡ suc n → drop m (x ∷ xs) ≡ drop n xs
drop-suc n m x xs e = rw e refl

last_lines-short : (a : List String) → length a ≤ 40 → last_lines a ≡ a
last_lines-short a h = rw (none_over (length a) h) refl
  where
    none_over : (n : ℕ) → n ≤ 40 → n - 40 ≡ 0
    none_over n le = omega (arith, le)

-- A full tail goes on with its oldest line dropped, which is not among the last lines.
last_lines-over :
    (t x : String) (ts xs : List String)
    → suc (length ts) ≡ 40
    → last_lines (ts ++ (x ∷ xs)) ≡ last_lines (t ∷ (ts ++ (x ∷ xs)))
last_lines-over t x ts xs full =
    let n = length (ts ++ (x ∷ xs)) in
    sym (
      drop-suc (n - 40) (suc n - 40) t (ts ++ (x ∷ xs))
        (omega (arith, full, length-append ts (x ∷ xs))))

retain-last :
    (tail : List String) (x : String) (xs : List String)
    → last_lines (retain tail x ++ xs) ≡ last_lines (tail ++ (x ∷ xs))
unfolding retain
retain-last [] x xs = refl
retain-last (t ∷ ts) x xs = elim (Bool-cases (eqb (suc (length ts)) 40)) [
  | inl full ↦
      rw full
        (rw (append_assoc ts x xs) (last_lines-over t x ts xs (eqb→eq (suc (length ts)) 40 full)))
  | inr free ↦ rw free (rw (append_assoc ts x xs) refl)
]

length-retain : (tail : List String) (x : String) → length tail ≤ 40 → length (retain tail x) ≤ 40
unfolding retain
length-retain [] x h = omega arith
length-retain (t ∷ ts) x h = elim (Bool-cases (eqb (suc (length ts)) 40)) [
  | inl full ↦ rw full (omega (arith, h, length-append ts (x ∷ [])))
  | inr free ↦ rw free (ground (arith, h, free, length-append ts (x ∷ [])))
]

retain_all-from :
    (tail texts : List String)
    → length tail ≤ 40
    → retain_all tail texts ≡ last_lines (tail ++ texts)
unfolding retain_all
retain_all-from tail [] h = rw (append_nil tail) (sym (last_lines-short tail h))
retain_all-from tail (x ∷ xs) h =
    retain_all-from (retain tail x) xs (length-retain tail x h) ∙ retain-last tail x xs

-- However many lines a worker writes, the retained tail is the last forty of them, oldest first,
-- or all of them where they are fewer, and so it never holds more than forty.
pub retain_all-last :
    (texts : List String)
    → (retain_all [] texts ≡ drop (length texts - 40) texts) × (length (retain_all [] texts) ≤ 40)
retain_all-last texts = (last, rw last (bound (length texts - 40) texts (omega arith)))
  where
    last : retain_all [] texts ≡ drop (length texts - 40) texts
    last = retain_all-from [] texts (omega arith)

    bound : (n : ℕ) (xs : List String) → length xs ≤ n + 40 → length (drop n xs) ≤ 40
    bound zero xs h = omega (arith, h)
    bound (suc n) [] h = omega arith
    bound (suc n) (x ∷ xs) h = bound n xs (omega (arith, h))
