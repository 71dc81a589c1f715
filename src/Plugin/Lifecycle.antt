-- ===== src/Plugin/Lifecycle.antt =====
-- `respawn_worker` and `shutdown` of crates/cpex-hosts-python/src/plugin.rs, that run at the same time
-- on the worker slot and the flag `shut_down`. Each step is what happens between two awaits or under one
-- lock. The respawn lock admits one respawn at a time; a call that only returns changes nothing. A worker
-- is marked dead by its reader, also while its process still runs, so that any worker in the slot can be
-- found dead. The end of a worker that is waited for or killed is taken to succeed, and `initialize` runs once,
-- before the steps.
pub mod Orphans
use cpex.Prelude.{ℕ, ◌≡◌, Bool, true, false, Option, none, some, eqb, if◌then◌else◌, ◌≢◌}

-- Where the respawn under the lock stands; a worker is named by a number.
pub data Respawn : Type 0 where
  idle : Respawn
  backing_off : (dead : ℕ) → Respawn
  reaping : (dead : ℕ) → Respawn
  launching : Respawn
  launched : (worker : ℕ) → Respawn

pub data Shutdown : Type 0 where
  not_called : Shutdown
  flagged : Shutdown
  stopping : (worker : ℕ) → Shutdown
  stopped : Shutdown

pub record System : Type 0 where
  pub slot : Option ℕ
  pub shut_down : Bool
  pub alive : ℕ → Bool
  pub respawn : Respawn
  pub shutdown : Shutdown

-- What is alive after a process ended, and after one was spawned.
abbrev pub killed : ℕ → (ℕ → Bool) → ℕ → Bool
killed w alive x = if eqb x w then false else alive x

abbrev pub spawned : ℕ → (ℕ → Bool) → ℕ → Bool
spawned w alive x = if eqb x w then true else alive x

pub data Step : System → System → Type 0 where
  dies : (s : System) (w : ℕ) → Step s (record s { alive = killed w s.alive })
  reserves :
      (s : System) (w : ℕ)
      → s.respawn ≡ idle
      → s.slot ≡ some w
      → s.shut_down ≡ false
      → Step s (record s { respawn = backing_off w })
  refuses :
      (s : System) (w : ℕ)
      → s.respawn ≡ backing_off w
      → s.shut_down ≡ true
      → Step s (record s { respawn = idle })
  goes_on :
      (s : System) (w : ℕ)
      → s.respawn ≡ backing_off w
      → s.shut_down ≡ false
      → Step s (record s { respawn = reaping w })
  reaps :
      (s : System) (w : ℕ)
      → s.respawn ≡ reaping w
      → Step s (record s { respawn = launching; alive = killed w s.alive })
  fails : (s : System) → s.respawn ≡ launching → Step s (record s { respawn = idle })
  launches :
      (s : System) (w : ℕ)
      → s.respawn ≡ launching
      → s.slot ≢ some w
      → Step s (record s { respawn = launched w; alive = spawned w s.alive })
  rejects :
      (s : System) (w : ℕ)
      → s.respawn ≡ launched w
      → Step s (record s { respawn = idle; alive = killed w s.alive })
  installs :
      (s : System) (w : ℕ)
      → s.respawn ≡ launched w
      → s.shut_down ≡ false
      → Step s (record s { respawn = idle; slot = some w })
  discards :
      (s : System) (w : ℕ)
      → s.respawn ≡ launched w
      → s.shut_down ≡ true
      → Step s (record s { respawn = idle; alive = killed w s.alive })
  sets_flag :
      (s : System)
      → s.shutdown ≡ not_called
      → Step s (record s { shutdown = flagged; shut_down = true })
  takes :
      (s : System) (w : ℕ)
      → s.shutdown ≡ flagged
      → s.slot ≡ some w
      → Step s (record s { shutdown = stopping w; slot = none })
  takes_nothing :
      (s : System) → s.shutdown ≡ flagged → s.slot ≡ none → Step s (record s { shutdown = stopped })
  stops :
      (s : System) (w : ℕ)
      → s.shutdown ≡ stopping w
      → Step s (record s { shutdown = stopped; alive = killed w s.alive })

-- After `initialize`: one worker, in the slot.
abbrev pub initialized : ℕ → System
initialized w = record {
  slot = some w;
  shut_down = false;
  alive = λ x. eqb x w;
  respawn = idle;
  shutdown = not_called;
}

-- What a plugin can come to from its initialization.
pub data Reachable (w : ℕ) : System → Type 0 where
  start : Reachable w (initialized w)
  step : (s s' : System) → Reachable w s → Step s s' → Reachable w s'
