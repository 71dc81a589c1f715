-- ===== src/Worker/Routing.antt =====
-- The reader task of crates/cpex-hosts-python/src/worker.rs: how often a caller is answered, with
-- what, and what an end of the stream or a frame over the limit does to those that wait.
use cpex.Prelude.{
  ◌≡◌, refl, ◌∙◌, ap, inl, inr, ℕ, ◌+◌, ◌≤◌, suc, true, false, String, Option, none, some, List, [],
  ◌∷◌, any, ◌==◌, if◌then◌else◌, arith, eq_iff, Bool-cases, Option-cases,
}
use cpex.Text.{is_empty, trim}
use cpex.Json.{Value, member}
use cpex.HostError.{HostError, response_too_large}
use cpex.Result.{ok, err, Serde, Serde-cases}
use cpex.Worker.{
  Outcome, answered, dropped, Channel, Frame, line, oversized, eof, failed, opened, is_pending,
  without, close, all_closed, close_all, register, forget, read_line, route_parsed, route_to, id_of,
  request_id_field, request_id_from_prefix, fail_owner, read_oversized, mark_dead, read_end,
  read_frame, Run, start, send, give_up, read,
}

-- How often an id stands in a list.
unfoldable pub count : String → List String → ℕ
count id [] = 0
count id (x ∷ xs) = let rest = count id xs in if x == id then suc rest else rest

abbrev pub keys : List (String × Outcome) → List String
keys [] = []
keys ((id, outcome) ∷ closed) = id ∷ keys closed

-- The senders of an id, in the table and out of it.
abbrev pub senders : String → Channel → ℕ
senders id c = count id c.pending + count id (keys c.closed)

count-without :
    (j id : String) (ids : List String)
    → count j (without id ids) ≡ (if id == j then 0 else count j ids)
unfolding count
count-without j id [] = ground arith
count-without j id (x ∷ xs) =
    ground (arith, eq_iff x id, eq_iff x j, eq_iff id j, count-without j id xs)

count-none : (id : String) (ids : List String) → any (λ p. p == id) ids ≡ false → count id ids ≡ 0
unfolding count
count-none id [] h = refl
count-none id (x ∷ xs) h = ground (arith, count-none id xs)

count-some : (id : String) (ids : List String) → any (λ p. p == id) ids ≡ true → 1 ≤ count id ids
unfolding count
count-some id [] h = ground arith
count-some id (x ∷ xs) h = ground (arith, count-some id xs)

count-all_closed :
    (j : String) (outcome : Outcome) (ids : List String) (closed : List (String × Outcome))
    → count j (keys (all_closed outcome ids closed)) ≡ count j ids + count j (keys closed)
unfolding count
count-all_closed j outcome [] closed = omega arith
count-all_closed j outcome (id ∷ ids) closed = ground (arith, count-all_closed j outcome ids closed)

senders-close :
    (j id : String) (outcome : Outcome) (c : Channel)
    → count id c.pending ≤ 1
    → senders j (close id outcome c) ≡ senders j c
unfolding close is_pending count
senders-close j id outcome c once = elim (Bool-cases (any (λ p. p == id) c.pending)) [
  | inl t ↦
      let there = count-some id c.pending t in
      elim (Bool-cases (id == j)) [
        | inl e ↦
            let same : count id c.pending ≡ count j c.pending =
              ap (λ (k : String). count k c.pending) ((eq_iff id j).0 e) in
            let left = count-without j id c.pending in
            rw t (rw e (omega (arith, there, once, same, rw e at left)))
        | inr e ↦
            let left = count-without j id c.pending in rw t (rw e (omega (arith, rw e at left)))
      ]
  | inr f ↦ rw f refl
]

senders-close_all :
    (j : String) (outcome : Outcome) (c : Channel) → senders j (close_all outcome c) ≡ senders j c
unfolding close_all count
senders-close_all j outcome c = omega (arith, count-all_closed j outcome c.pending c.closed)

senders-fail_owner :
    (j : String) (owner : Option String) (e : HostError) (c : Channel)
    → ((id : String) → count id c.pending ≤ 1)
    → senders j (fail_owner owner e c) ≡ senders j c
unfolding fail_owner
senders-fail_owner j none e c once = senders-close_all j (answered (err e)) c
senders-fail_owner j (some id) e c once = elim (Bool-cases (is_pending id c)) [
  | inl t ↦ rw t (senders-close j id (answered (err e)) c (once id))
  | inr f ↦ rw f (senders-close_all j (answered (err e)) c)
]

-- Each frame leaves the number of an id's senders as it is.
senders-read_frame :
    (from_str : String → Serde Value) (limit : ℕ) (f : Frame) (j : String) (c : Channel)
    → ((id : String) → count id c.pending ≤ 1)
    → senders j (read_frame from_str limit f c) ≡ senders j c
unfolding read_frame read_line route_parsed route_to read_oversized read_end close_all mark_dead
senders-read_frame from_str limit (line text) j c once = elim (Bool-cases (is_empty (trim text))) [
  | inl blank ↦ rw blank refl
  | inr shown ↦ rw shown (elim (Serde-cases (from_str (trim text))) [
    | inl (e, no_json) ↦ rw no_json refl
    | inr (response, is_json) ↦
        rw is_json (elim (Option-cases (id_of (member request_id_field response))) [
          | inl unnamed ↦ rw unnamed refl
          | inr (id, named) ↦ rw named (senders-close j id (answered (ok response)) c (once id))
        ])
  ])
]
senders-read_frame from_str limit (oversized prefix scanned) j c once =
    senders-fail_owner j (request_id_from_prefix prefix) (response_too_large scanned limit) c once
senders-read_frame from_str limit eof j c once = senders-close_all j dropped (mark_dead c)
senders-read_frame from_str limit (failed e) j c once = senders-close_all j dropped (mark_dead c)

-- Every registered id is new, and its sender stands in the table or has left it once.
record IsTraced (ids : List String) (c : Channel) : Type 0 where
  unique : (j : String) → count j ids ≤ 1
  traced : (j : String) → senders j c ≡ count j ids

pending_once :
    (ids : List String) (c : Channel) → IsTraced ids c → (j : String) → count j c.pending ≤ 1
pending_once ids c t j = omega (arith, t.unique j, t.traced j)

unique-send :
    (id : String) (ids : List String)
    → any (λ p. p == id) ids ≡ false
    → ((j : String) → count j ids ≤ 1)
    → (j : String) → count j (id ∷ ids) ≤ 1
unfolding count
unique-send id ids new once j = elim (Bool-cases (id == j)) [
  | inl e ↦ rw e (omega (arith, count-none j ids (rw ((eq_iff id j).0 e) at new)))
  | inr e ↦ rw e (once j)
]

senders-register :
    (id : String) (c : Channel) (ids : List String) (j : String)
    → senders j c ≡ count j ids
    → senders j (register id c) ≡ count j (id ∷ ids)
unfolding register count
senders-register id c ids j h = elim (Bool-cases (id == j)) [
  | inl e ↦ rw e (omega (arith, h))
  | inr e ↦ rw e h
]

Run-IsTraced :
    {from_str : String → Serde Value} {limit : ℕ} {ids : List String} {c : Channel}
    → Run from_str limit ids c
    → IsTraced ids c
unfolding opened count forget close
Run-IsTraced start = record { unique = λ j. omega arith; traced = λ j. omega arith }
Run-IsTraced (send {ids} {c} id new run) =
    let t = Run-IsTraced run in
    record {
      unique = unique-send id ids new t.unique;
      traced = λ j. senders-register id c ids j (t.traced j);
    }
Run-IsTraced (give_up {ids} {c} id run) =
    let t = Run-IsTraced run in
    record {
      unique = t.unique;
      traced = λ j. senders-close j id dropped c (pending_once ids c t id) ∙ t.traced j;
    }
Run-IsTraced {from_str} {limit} (read {ids} {c} f reading run) =
    let t = Run-IsTraced run in
    record {
      unique = t.unique;
      traced = λ j. senders-read_frame from_str limit f j c (pending_once ids c t) ∙ t.traced j;
    }

-- In every run, whatever the order of the steps: a request that was sent is still waiting, or it was
-- answered or dropped, and just one of these holds, once.
pub Run-once :
    (from_str : String → Serde Value) (limit : ℕ) (ids : List String) (c : Channel)
    → Run from_str limit ids c
    → (id : String) → any (λ p. p == id) ids ≡ true
    → count id c.pending + count id (keys c.closed) ≡ 1
Run-once from_str limit ids c run id sent =
    let t = Run-IsTraced run in omega (arith, t.unique id, t.traced id, count-some id ids sent)

-- When the reader ends, at the end of the stream or on a read error, the worker is marked dead, no
-- request is left waiting, and a request sent before has been answered or dropped exactly once.
pub Run-end :
    (from_str : String → Serde Value) (limit : ℕ) (ids : List String) (c : Channel)
    → Run from_str limit ids c
    → (id : String) → any (λ p. p == id) ids ≡ true
    → ((read_end c).alive ≡ false)
      × ((read_end c).pending ≡ [])
      × (count id (keys (read_end c).closed) ≡ 1)
unfolding read_end mark_dead close_all
Run-end from_str limit ids c run id sent = (
  refl,
  refl,
  omega (
    arith,
    Run-once from_str limit ids c run id sent,
    count-all_closed id dropped c.pending c.closed,
  ),
)
