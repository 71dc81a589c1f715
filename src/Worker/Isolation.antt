-- ===== src/Worker/Isolation.antt =====
-- The reader task of crates/cpex-hosts-python/src/worker.rs: whose answer a caller gets.
use cpex.Prelude.{
  ◌≡◌, refl, ◌⊎◌, inl, inr, ℕ, true, false, String, some, List, [], ◌∷◌, any, ◌==◌, arith, eq_iff,
  Bool-cases, Option-cases,
}
use cpex.Text.{is_empty, trim}
use cpex.Json.{Value, member}
use cpex.HostError.{response_too_large}
use cpex.Result.{ok, err, Serde, parsed, Serde-cases}
use cpex.Worker.{
  Outcome, answered, Channel, is_pending, without, close, read_line, route_parsed, route_to, id_of,
  request_id_field, request_id_from_prefix, fail_owner, read_oversized,
}

any-without :
    (j id : String) (ids : List String)
    → (id == j) ≡ false
    → any (λ p. p == j) (without id ids) ≡ any (λ p. p == j) ids
any-without j id [] other = refl
any-without j id (x ∷ xs) other =
    ground (arith, eq_iff x id, eq_iff x j, eq_iff id j, any-without j id xs other)

is_pending-close :
    (j id : String) (outcome : Outcome) (c : Channel)
    → (id == j) ≡ false
    → is_pending j (close id outcome c) ≡ is_pending j c
unfolding close is_pending
is_pending-close j id outcome c other = elim (Bool-cases (any (λ p. p == id) c.pending)) [
  | inl t ↦ rw t (any-without j id c.pending other)
  | inr f ↦ rw f refl
]

-- The line is JSON that carries the id, and the caller's sender left with that JSON.
abbrev pub IsAnswer : (String → Serde Value) → String → String → Channel → Channel → Type 0
IsAnswer from_str text id c c' =
    (response : Value) × (from_str (trim text) ≡ parsed response)
    × (id_of (member request_id_field response) ≡ some id)
    × (c'.closed ≡ (id, answered (ok response)) ∷ c.closed)

closed-close :
    (id : String) (outcome : Outcome) (c : Channel)
    → is_pending id c ≡ true
    → (close id outcome c).closed ≡ (id, outcome) ∷ c.closed
unfolding close
closed-close id outcome c h = rw h refl

-- Whether a line within the limit leaves a waiting caller waiting: it does, or the line is JSON with
-- that caller's own id, and the caller gets exactly this JSON.
pub read_line-own :
    (from_str : String → Serde Value) (text id : String) (c : Channel)
    → is_pending id c ≡ true
    → (is_pending id (read_line from_str text c) ≡ true)
      ⊎ IsAnswer from_str text id c (read_line from_str text c)
unfolding read_line route_parsed route_to
read_line-own from_str text id c waits = elim (Bool-cases (is_empty (trim text))) [
  | inl blank ↦ inl (rw blank waits)
  | inr shown ↦ elim (Serde-cases (from_str (trim text))) [
    | inl (e, no_json) ↦ inl (rw (shown, no_json) waits)
    | inr (response, is_json) ↦ elim (Option-cases (id_of (member request_id_field response))) [
      | inl unnamed ↦ inl (rw (shown, is_json, unnamed) waits)
      | inr (owner, named) ↦ elim (Bool-cases (owner == id)) [
        | inl same ↦
            let is : owner ≡ id = (eq_iff owner id).0 same in
            inr (
              response,
              is_json,
              rw is at named,
              rw (shown, is_json, named, is) (closed-close id (answered (ok response)) c waits),
            )
        | inr other ↦ inl (
            rw (shown, is_json, named, is_pending-close id owner (answered (ok response)) c other)
              waits)
      ]
    ]
  ]
]

-- A frame over the limit whose prefix shows the id of a waiting request fails that request, with the
-- size error, and no other: all others that wait go on waiting.
pub read_oversized-owner :
    (limit scanned : ℕ) (prefix id other : String) (c : Channel)
    → request_id_from_prefix prefix ≡ some id
    → is_pending id c ≡ true
    → (id == other) ≡ false
    → ((read_oversized limit prefix scanned c).closed
        ≡ (id, answered (err (response_too_large scanned limit))) ∷ c.closed)
      × (is_pending other (read_oversized limit prefix scanned c) ≡ is_pending other c)
unfolding read_oversized fail_owner
read_oversized-owner limit scanned prefix id other c shown waits apart =
    let e = answered (err (response_too_large scanned limit)) in
    rw (shown, waits) (closed-close id e c waits, is_pending-close other id e c apart)
