-- ===== src/Worker/Tests.antt =====
-- Runs of the worker's transport on concrete frames.
use cpex.Prelude.{◌≡◌, refl, ◌↔◌, ◌⊎◌, ℕ, ◌+◌, true, false, String, none, some, List, [], ◌∷◌, ◌==◌}
use cpex.Text.{after, before}
use cpex.Json.{get, Value, null, string, array, object, end, field, nil, cons}
use cpex.HostError.{response_too_large}
use cpex.Result.{ok, err, Serde, parsed, refused}
use cpex.Worker.{
  answered, Channel, line, oversized, opened, register, read_frame, read_line, read_end,
  read_oversized, is_pending, Run, start, send, read, capabilities, has, WorkerCapabilities,
  request_id_from_prefix,
}
use cpex.Worker.Routing.{count, keys, Run-once, Run-end}
use cpex.Worker.Isolation.{IsAnswer, read_line-own, read_oversized-owner}
use cpex.Worker.Lines.{
  read_bounded_line, read_fills, after_newline, finish_line, absorb, reading_start, line_part,
  strip_cr,
}
use cpex.Worker.Lines.Framing.{Reads, flat, read_bounded_line-Reads}
use cpex.Worker.Sending.{start_task}
use cpex.Worker.Sending.Bounded.{Starts, start_task-Starts}
use cpex.Worker.Handshake.{Lists, capabilities-has_iff}

abbrev answer_a : Value
answer_a = object (field "request_id" (string "a") (field "result" null end))

-- A parser that knows one text.
abbrev from_str : String → Serde Value
from_str text = elim (text == "A") [ true ↦ parsed answer_a | false ↦ refused "expected value" ]

abbrev two_sent : Channel
two_sent = register "b" (register "a" opened)

abbrev answered_a : Channel
answered_a = read_frame from_str 64 (line "A\n") two_sent

run : Run from_str 64 ("b" ∷ "a" ∷ []) answered_a
unfolding register opened
run = read (line "A\n") refl (send "b" refl (send "a" refl start))

Run-once_example : count "a" answered_a.pending + count "a" (keys answered_a.closed) ≡ 1
Run-once_example = Run-once from_str 64 ("b" ∷ "a" ∷ []) answered_a run "a" refl

Run-end_example :
    ((read_end answered_a).alive ≡ false)
    × ((read_end answered_a).pending ≡ [])
    × (count "b" (keys (read_end answered_a).closed) ≡ 1)
Run-end_example = Run-end from_str 64 ("b" ∷ "a" ∷ []) answered_a run "b" refl

a_waits : is_pending "a" two_sent ≡ true
unfolding is_pending register opened
a_waits = refl

read_line-own_example :
    (is_pending "a" (read_line from_str "A\n" two_sent) ≡ true)
    ⊎ IsAnswer from_str "A\n" "a" two_sent (read_line from_str "A\n" two_sent)
read_line-own_example = read_line-own from_str "A\n" "a" two_sent a_waits

abbrev cut : String
cut = "{\"request_id\": \"a\", \"result\": [0, 0"

cut_names_a : request_id_from_prefix cut ≡ some "a"
unfolding request_id_from_prefix after before
cut_names_a = refl

read_oversized-owner_example :
    ((read_oversized 36 cut 99 two_sent).closed
      ≡ ("a", answered (err (response_too_large 99 36))) ∷ two_sent.closed)
    × (is_pending "b" (read_oversized 36 cut 99 two_sent) ≡ is_pending "b" two_sent)
read_oversized-owner_example =
    read_oversized-owner 36 99 cut "a" "b" two_sent cut_names_a a_waits refl

-- A decoder that shows the number of bytes.
abbrev decode : List ℕ → String
decode [] = ""
decode (b ∷ bs) = "bytes"

abbrev fills : List (List ℕ)
fills = (1 ∷ 2 ∷ []) ∷ (3 ∷ 10 ∷ 4 ∷ []) ∷ []

read_bounded_line-Reads_example : Reads decode 2 [] (flat fills) (read_bounded_line decode 2 fills)
read_bounded_line-Reads_example = read_bounded_line-Reads decode 2 fills (refl, (refl, tt))

too_long : read_bounded_line decode 2 fills ≡ (oversized "bytes" 3, (4 ∷ []) ∷ [])
unfolding read_bounded_line read_fills after_newline finish_line absorb reading_start line_part
    strip_cr
too_long = refl

abbrev reply : Value
reply = object (field "features" (array (cons (string "credential") nil)) end)

abbrev reported : WorkerCapabilities
reported = record { protocol_version = 0; features = "credential" ∷ []; cpex_version = none }

replied : capabilities (ok reply) ≡ ok reported
unfolding capabilities get
replied = refl

capabilities-has_iff_example :
    (has "credential" reported ≡ true)
    ↔ ((response : Value) × (ok reply ≡ ok response) × Lists "credential" response)
capabilities-has_iff_example = capabilities-has_iff (ok reply) reported "credential" replied

abbrev only_a : Channel
only_a = register "a" opened

abbrev prints : Value → Serde String
prints v = parsed "{}"

start_task-Starts_example :
    Starts prints 36 "b"
      (object end)
      only_a
      (start_task prints 36 true [] "b" (object end) only_a).0
      (start_task prints 36 true [] "b" (object end) only_a).1
unfolding register opened is_pending
start_task-Starts_example = start_task-Starts prints 36 true [] "b" (object end) only_a refl
