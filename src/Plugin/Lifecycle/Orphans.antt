-- ===== src/Plugin/Lifecycle/Orphans.antt =====
-- No worker that runs is out of reach, in crates/cpex-hosts-python/src/plugin.rs.
use cpex.Prelude.{
  ℕ, ◌≡◌, refl, ap, sym, ◌∙◌, Bool, true, false, not, ◌||◌, Option, none, some, eqb, eqb→eq, ◌≢◌,
  arith, Bool-cases, inl, inr,
}
use cpex.Plugin.Lifecycle.{
  Respawn, idle, backing_off, reaping, launching, launched, Shutdown, not_called, flagged, stopping,
  stopped, System, killed, spawned, Step, dies, reserves, refuses, goes_on, reaps, fails, launches,
  rejects, installs, discards, sets_flag, takes, takes_nothing, stops, initialized, Reachable,
  start, step,
}

abbrev pub in_slot : Option ℕ → ℕ → Bool
in_slot none w = false
in_slot (some v) w = eqb v w

abbrev pub by_respawn : Respawn → ℕ → Bool
by_respawn (launched v) w = eqb v w
by_respawn _ w = false

abbrev pub by_shutdown : Shutdown → ℕ → Bool
by_shutdown (stopping v) w = eqb v w
by_shutdown _ w = false

-- A respawn at this point will do away with the worker that the slot holds, or has not begun.
abbrev may_run : Respawn → ℕ → Bool
may_run idle w = true
may_run (backing_off v) w = eqb v w
may_run (reaping v) w = eqb v w
may_run launching w = false
may_run (launched v) w = false

abbrev is_called : Shutdown → Bool
is_called not_called = false
is_called _ = true

abbrev has_taken : Shutdown → Bool
has_taken (stopping w) = true
has_taken stopped = true
has_taken _ = false

taken_called : (q : Shutdown) → has_taken q ≡ true → is_called q ≡ true
taken_called not_called t = t
taken_called flagged t = refl
taken_called (stopping w) t = refl
taken_called stopped t = refl

in_slot-fresh : (slot : Option ℕ) (w : ℕ) → slot ≢ some w → in_slot slot w ≡ false
in_slot-fresh none w fresh = refl
in_slot-fresh (some v) w fresh = elim (Bool-cases (eqb v w)) [
  | inl e ↦ elim (fresh (ap some (eqb→eq v w e))) [ ]
  | inr e ↦ e
]

-- Who runs is held; a slot that a respawn is to fill holds nobody who runs; and the slot stays empty behind `shutdown`.
record IsHeld (s : System) : Type 0 where
  held :
      (w : ℕ)
      → s.alive w ≡ true
      → (in_slot s.slot w || (by_respawn s.respawn w || by_shutdown s.shutdown w)) ≡ true
  replaced : (w : ℕ) → in_slot s.slot w ≡ true → (may_run s.respawn w || not (s.alive w)) ≡ true
  called : (not (is_called s.shutdown) || s.shut_down) ≡ true
  taken : (w : ℕ) → has_taken s.shutdown ≡ true → in_slot s.slot w ≡ false

-- The respawn changes, and a worker that it held is ended or is in the slot.
module _ (s : System) (h : IsHeld s) where
  dies-IsHeld : (w : ℕ) → IsHeld (record s { alive = killed w s.alive })
  dies-IsHeld w = record {
    held = λ v a. ground (arith, h.held v);
    replaced = λ v a. ground (arith, h.replaced v);
    called = h.called;
    taken = h.taken;
  }

  idles-IsHeld :
      ((w : ℕ) → by_respawn s.respawn w ≡ true → s.alive w ≡ false)
      → IsHeld (record s { respawn = idle })
  idles-IsHeld gone = record {
    held = λ v a. ground (arith, h.held v a, gone v);
    replaced = λ v a. refl;
    called = h.called;
    taken = h.taken;
  }

  reserves-IsHeld :
      (w : ℕ) → s.respawn ≡ idle → s.slot ≡ some w → IsHeld (record s { respawn = backing_off w })
  reserves-IsHeld w r full = record {
    held = λ v a. ground (arith, h.held v a, ap (λ q. by_respawn q v) r);
    replaced = λ v a. ground (arith, ap (λ q. in_slot q v) full);
    called = h.called;
    taken = h.taken;
  }

  goes_on-IsHeld : (w : ℕ) → s.respawn ≡ backing_off w → IsHeld (record s { respawn = reaping w })
  goes_on-IsHeld w r = record {
    held = λ v a. ground (arith, h.held v a, ap (λ q. by_respawn q v) r);
    replaced = λ v a. ground (arith, h.replaced v a, ap (λ q. may_run q v) r);
    called = h.called;
    taken = h.taken;
  }

  reaps-IsHeld :
      (w : ℕ)
      → s.respawn ≡ reaping w
      → IsHeld (record s { respawn = launching; alive = killed w s.alive })
  reaps-IsHeld w r = record {
    held = λ v a. ground (arith, h.held v, ap (λ q. by_respawn q v) r);
    replaced = λ v a. ground (arith, h.replaced v a, ap (λ q. may_run q v) r);
    called = h.called;
    taken = h.taken;
  }

  launches-IsHeld :
      (w : ℕ)
      → s.respawn ≡ launching
      → in_slot s.slot w ≡ false
      → IsHeld (record s { respawn = launched w; alive = spawned w s.alive })
  launches-IsHeld w r fresh = record {
    held = λ v a. ground (arith, h.held v, ap (λ q. by_respawn q v) r);
    replaced = λ v a. elim (Bool-cases (eqb v w)) [
      | inl e ↦ let off = sym a ∙ ap (in_slot s.slot) (eqb→eq v w e) ∙ fresh in cc
      | inr e ↦ ground (arith, h.replaced v a, ap (λ q. may_run q v) r)
    ];
    called = h.called;
    taken = h.taken;
  }

  installs-IsHeld :
      (w : ℕ)
      → s.respawn ≡ launched w
      → s.shut_down ≡ false
      → IsHeld (record s { respawn = idle; slot = some w })
  installs-IsHeld w r open_yet = record {
    held = λ v a.
        ground
          (arith, h.held v a, h.replaced v, ap (λ q. by_respawn q v) r, ap (λ q. may_run q v) r);
    replaced = λ v a. refl;
    called = h.called;
    taken = λ v t. let began = taken_called s.shutdown t in ground (arith, h.called);
  }

  flags-IsHeld :
      s.shutdown ≡ not_called → IsHeld (record s { shutdown = flagged; shut_down = true })
  flags-IsHeld q = record {
    held = λ v a. ground (arith, h.held v a, ap (λ x. by_shutdown x v) q);
    replaced = h.replaced;
    called = refl;
    taken = λ v t. ground arith;
  }

  takes-IsHeld :
      (w : ℕ)
      → s.shutdown ≡ flagged
      → s.slot ≡ some w
      → IsHeld (record s { shutdown = stopping w; slot = none })
  takes-IsHeld w q full = record {
    held =
        λ v a. ground (arith, h.held v a, ap (λ x. by_shutdown x v) q, ap (λ x. in_slot x v) full);
    replaced = λ v a. ground arith;
    called = ground (arith, h.called, ap is_called q);
    taken = λ v t. refl;
  }

  takes_nothing-IsHeld :
      s.shutdown ≡ flagged → s.slot ≡ none → IsHeld (record s { shutdown = stopped })
  takes_nothing-IsHeld q empty = record {
    held = λ v a. ground (arith, h.held v a, ap (λ x. by_shutdown x v) q);
    replaced = h.replaced;
    called = ground (arith, h.called, ap is_called q);
    taken = λ v t. ap (λ x. in_slot x v) empty;
  }

  stops-IsHeld :
      (w : ℕ)
      → s.shutdown ≡ stopping w
      → IsHeld (record s { shutdown = stopped; alive = killed w s.alive })
  stops-IsHeld w q = record {
    held = λ v a. ground (arith, h.held v, ap (λ x. by_shutdown x v) q);
    replaced = λ v a. ground (arith, h.replaced v a);
    called = ground (arith, h.called, ap is_called q);
    taken = λ v t. h.taken v (ap has_taken q);
  }

  -- A worker that is done away with leaves an idle respawn.
  ends-IsHeld :
      (w : ℕ)
      → s.respawn ≡ launched w
      → IsHeld (record s { respawn = idle; alive = killed w s.alive })
  ends-IsHeld w r = record {
    held = λ v a. ground (arith, h.held v, ap (λ q. by_respawn q v) r);
    replaced = λ v a. refl;
    called = h.called;
    taken = h.taken;
  }

Step-IsHeld : (s s' : System) → Step s s' → IsHeld s → IsHeld s'
Step-IsHeld s s' (dies _ w) h = dies-IsHeld s h w
Step-IsHeld s s' (reserves _ w r full f) h = reserves-IsHeld s h w r full
Step-IsHeld s s' (refuses _ w r f) h =
    idles-IsHeld s h (λ v b. ground (arith, sym b, ap (λ q. by_respawn q v) r))
Step-IsHeld s s' (goes_on _ w r f) h = goes_on-IsHeld s h w r
Step-IsHeld s s' (reaps _ w r) h = reaps-IsHeld s h w r
Step-IsHeld s s' (fails _ r) h =
    idles-IsHeld s h (λ v b. ground (arith, sym b, ap (λ q. by_respawn q v) r))
Step-IsHeld s s' (launches _ w r fresh) h = launches-IsHeld s h w r (in_slot-fresh s.slot w fresh)
Step-IsHeld s s' (rejects _ w r) h = ends-IsHeld s h w r
Step-IsHeld s s' (installs _ w r f) h = installs-IsHeld s h w r f
Step-IsHeld s s' (discards _ w r f) h = ends-IsHeld s h w r
Step-IsHeld s s' (sets_flag _ q) h = flags-IsHeld s h q
Step-IsHeld s s' (takes _ w q full) h = takes-IsHeld s h w q full
Step-IsHeld s s' (takes_nothing _ q empty) h = takes_nothing-IsHeld s h q empty
Step-IsHeld s s' (stops _ w q) h = stops-IsHeld s h w q

initialized-IsHeld : (w : ℕ) → IsHeld (initialized w)
initialized-IsHeld w = record {
  held = λ v a. ground arith;
  replaced = λ v a. refl;
  called = refl;
  taken = λ v t. ground arith;
}

Reachable-IsHeld : (w : ℕ) (s : System) → Reachable w s → IsHeld s
Reachable-IsHeld w s start = initialized-IsHeld w
Reachable-IsHeld w s (step s₀ _ before one) = Step-IsHeld s₀ s one (Reachable-IsHeld w s₀ before)

-- In every interleaving of respawns, deaths and `shutdown`, a worker whose process runs is in the slot, is the one
-- that a respawn just launched, or is the one that `shutdown` is stopping.
pub Reachable-held :
    (first : ℕ) (s : System) (w : ℕ)
    → Reachable first s
    → s.alive w ≡ true
    → (in_slot s.slot w || (by_respawn s.respawn w || by_shutdown s.shutdown w)) ≡ true
Reachable-held first s w reached a = (Reachable-IsHeld first s reached).held w a

-- Once `shutdown` has returned and no respawn is under way, the slot is empty and no worker runs, however the
-- two were interleaved.
pub Reachable-stopped :
    (first : ℕ) (s : System) (w : ℕ)
    → Reachable first s
    → s.shutdown ≡ stopped
    → s.respawn ≡ idle
    → (in_slot s.slot w ≡ false) × (s.alive w ≡ false)
Reachable-stopped first s w reached q r =
    let h = Reachable-IsHeld first s reached in
    let empty = h.taken w (ap has_taken q) in
    (empty, ground (arith, h.held w, ap (λ x. by_respawn x w) r, ap (λ x. by_shutdown x w) q))
