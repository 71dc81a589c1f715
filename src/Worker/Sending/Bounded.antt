-- ===== src/Worker/Sending/Bounded.antt =====
-- What a task costs and what it leaves, in `send_task` of crates/cpex-hosts-python/src/worker.rs.
use Prim.Native.String.{len}
use cpex.Prelude.{
  ◌≡◌, refl, subst, ap, any, eq_iff, sym, ◌∙◌, ℕ, ◌≤◌, Bool, true, false, not, String, List, [],
  ◌∷◌, ltb, inl, inr, arith, Bool-cases, if◌then◌else◌, ◌==◌,
}
use cpex.Json.{Value, null, bool, number, string, array, object, Fields, put}
use cpex.HostError.{HostError}
use cpex.Result.{Result, ok, err, >>=-eq-ok, ok-injective, Serde, parsed, refused, map_err}
use cpex.Worker.{Channel, register, forget, close, is_pending, without, request_id_field}
use cpex.Worker.Sending.{with_id, within_limit, task_line, registered, register_line, start_task}

-- The line is what the task serializes to with its id, and it is within the limit.
pub record IsSent (to_string : Value → Serde String) (limit : ℕ) (id : String) (task : Value)
    (line : String) : Type 0 where
  pub fields : Fields
  pub is_object : task ≡ object fields
  pub printed : to_string (object (put request_id_field (string id) fields)) ≡ parsed line
  pub bounded : len line ≤ limit

printed_line :
    (s : Serde String) (f : String → HostError) (line : String)
    → map_err s f ≡ ok line
    → s ≡ parsed line
printed_line (parsed text) f line h = ap parsed (ok-injective text line h)
printed_line (refused e) f line h = cc

limited :
    (limit : ℕ) (text line : String)
    → within_limit limit text ≡ ok line
    → (text ≡ line) × (len line ≤ limit)
unfolding within_limit
limited limit text line h = elim (Bool-cases (ltb limit (len text))) [
  | inl over ↦ let off = rw over at h in cc
  | inr fits ↦
      let same = ok-injective text line (rw fits at h) in
      (same, subst (λ s. len s ≤ limit) same (ground arith))
]

with_id-object :
    (id : String) (task with_request_id : Value)
    → with_id id task ≡ ok with_request_id
    → (fs : Fields) × (task ≡ object fs)
      × (with_request_id ≡ object (put request_id_field (string id) fs))
unfolding with_id
with_id-object id (object fs) w h = (fs, refl, sym (ok-injective _ w h))
with_id-object id null w h = cc
with_id-object id (bool b) w h = cc
with_id-object id (number n) w h = cc
with_id-object id (string s) w h = cc
with_id-object id (array vs) w h = cc

task_line-IsSent :
    (to_string : Value → Serde String) (limit : ℕ) (id : String) (task : Value) (line : String)
    → task_line to_string limit id task ≡ ok line
    → IsSent to_string limit id task line
unfolding task_line
task_line-IsSent to_string limit id task line h =
    let (w, e, h₁) = >>=-eq-ok (with_id id task) _ h in
    let (text, printed, h₂) = >>=-eq-ok (map_err (to_string w) _) _ h₁ in
    let (fs, is_object, made) = with_id-object id task w e in
    let (same, bounded) = limited limit text line h₂ in
    record {
      fields = fs;
      is_object = is_object;
      printed =
          ap to_string (sym made) ∙ printed_line (to_string w) _ text printed ∙ ap parsed same;
      bounded = bounded;
    }

-- What the start of a task leaves: a line to write and its request in the table, or an error and the table as it was.
abbrev pub Starts :
    (Value → Serde String) → ℕ → String → Value → Channel → Result String → Channel → Type 0
Starts to_string limit id task c (ok line) c' =
    IsSent to_string limit id task line × (c' ≡ register id c) × (c.alive ≡ true)
Starts to_string limit id task c (err e) c' = (c'.pending ≡ c.pending)

without-fresh :
    (id : String) (ids : List String) → any (λ p. p == id) ids ≡ false → without id ids ≡ ids
without-fresh id [] fresh = refl
without-fresh id (x ∷ ids) fresh = elim (Bool-cases (x == id)) [
  | inl e ↦ let off = rw e at fresh in cc
  | inr e ↦ rw e (ap (λ rest. x ∷ rest) (without-fresh id ids (rw e at fresh)))
]

forget-register :
    (id : String) (c : Channel)
    → is_pending id c ≡ false
    → (forget id (register id c)).pending ≡ c.pending
unfolding forget register close is_pending
forget-register id c fresh =
    let same : (id == id) ≡ true = (eq_iff id id).1 refl in
    rw same (without-fresh id c.pending fresh)

module _ (to_string : Value → Serde String) (limit : ℕ) (id : String) (task : Value) (c : Channel)
    (fresh : is_pending id c ≡ false) where
  registered-Starts :
      (writable : Bool) (stderr : List String) (line : String)
      → c.alive ≡ true
      → IsSent to_string limit id task line
      → Starts to_string limit id task c
          (registered writable stderr id line c).0
          (registered writable stderr id line c).1
  unfolding registered
  registered-Starts true stderr line alive sent = (sent, refl, alive)
  registered-Starts false stderr line alive sent = forget-register id c fresh

  register_line-Starts :
      (writable : Bool) (stderr : List String) (line : Result String)
      → c.alive ≡ true
      → ((text : String) → line ≡ ok text → IsSent to_string limit id task text)
      → Starts to_string limit id task c
          (register_line writable stderr id line c).0
          (register_line writable stderr id line c).1
  unfolding register_line
  register_line-Starts writable stderr (err e) alive sent = refl
  register_line-Starts writable stderr (ok line) alive sent =
      registered-Starts writable stderr line alive (sent line refl)

  gated-Starts :
      (writable : Bool) (stderr : List String) (alive : Bool) (e : HostError)
      → c.alive ≡ alive
      → (let made =
            if not alive
            then (err e, c)
            else register_line writable stderr id (task_line to_string limit id task) c in
          Starts to_string limit id task c made.0 made.1)
  gated-Starts writable stderr false e is = refl
  gated-Starts writable stderr true e is =
      register_line-Starts writable stderr (task_line to_string limit id task) is
        (task_line-IsSent to_string limit id task)

-- A task is handed to the writer only for a worker that is alive and if it is an object; the line is then the task with the
-- new id, is not longer than the limit, and its request is in the table. Otherwise the caller has an error, and the
-- table is as it was, also after a write that failed.
pub start_task-Starts :
    (to_string : Value → Serde String) (limit : ℕ) (writable : Bool) (stderr : List String)
    (id : String) (task : Value) (c : Channel)
    → is_pending id c ≡ false
    → Starts to_string limit id task c
        (start_task to_string limit writable stderr id task c).0
        (start_task to_string limit writable stderr id task c).1
unfolding start_task
start_task-Starts to_string limit writable stderr id task c fresh =
    gated-Starts to_string limit id task c fresh writable stderr c.alive _ refl
