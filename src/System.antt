-- ===== src/System.antt =====
-- include/wbrcu/rcu_protected.hpp: one `rcu_protected<T>` and the threads that use it, interleaved in
-- any order, and what has happened so far.
pub mod Registry
mod Ownership
mod Faults
mod Shelter
mod Memory
mod Accounts
mod Values
mod Invariant
pub mod Safety
pub mod Snapshot
pub mod Lifetime
mod Order
mod Carried
mod Waiting
mod Effort
pub mod Progress
pub mod Termination
mod Supply
pub mod Completion
pub mod Latency
pub mod Nested
pub mod Thrown
pub mod Freshness
pub mod Space
mod Stages
pub mod Own
pub mod Refinement
pub mod Delivery
pub mod Schedule
mod Tests
mod Moves
use writeboost_rcu.Common.{
  ℕ, ◌≡◌, Option, none, some, List, [], ◌∷◌, if◌then◌else◌, ltb, update, length, refl, Bool, true,
  false, ◌==◌,
}
use writeboost_rcu.Rcu.{Config, Rcu, construct}
use writeboost_rcu.Threads.{
  Outcome, done, blocked, fault, ReadPc, outside, WritePc, idle, enqueueing, copied, working,
  publishing, read_step, call_step, write_step,
}

pub record System (T : Type 0) : Type 0 where
  pub rcu : Rcu T
  pub open rcu use *
  pub reads : ℕ → ReadPc
  pub writes : ℕ → WritePc T

-- What the scheduler and the callers choose: which thread takes a step, and what it calls. The
-- number beside `write` is what the allocator returns, if the step allocates.
pub data Action (T : Type 0) : Type 0 where
  read : (i : ℕ) → Action T
  call : (i : ℕ) (f : T → T) → Action T
  write : (i fresh : ℕ) → Action T

module _ {T : Type 0} where
  after_read : System T → ℕ → Rcu T × ReadPc → System T
  after_read s i (r, pc) = record s { rcu = r; reads = update s.reads i pc }

  after_write : System T → ℕ → Rcu T × WritePc T → System T
  after_write s i (r, pc) = record s { rcu = r; writes = update s.writes i pc }

  unfoldable pub call_from : System T → ℕ → (T → T) → WritePc T → Outcome (System T)
  unfolding call_step after_write
  call_from s i f idle = done (after_write s i (call_step f s.rcu))
  call_from s i f _ = blocked

  unfoldable pub write_from :
      Config → System T → ℕ → ℕ → Outcome (Rcu T × WritePc T) → Outcome (System T)
  unfolding after_write
  write_from c s i fresh (done next) = done (after_write s i next)
  write_from c s i fresh blocked = blocked
  write_from c s i fresh fault = fault

  -- A step of one of the `c.threads` threads.
  unfoldable pub step : Config → System T → Action T → Outcome (System T)
  unfolding read_step write_step call_from write_from after_read
  step c s (read i) =
      if ltb i c.threads then done (after_read s i (read_step i s.rcu (s.reads i))) else blocked
  step c s (call i f) = if ltb i c.threads then call_from s i f (s.writes i) else blocked
  step c s (write i fresh) =
      if ltb i c.threads
      then write_from c s i fresh (write_step c fresh s.rcu (s.writes i))
      else blocked

  unfoldable pub start : ℕ → T → System T
  unfolding construct
  start p v = record { rcu = construct p v; reads = λ _. outside; writes = λ _. idle }

-- The updates that were asked for, those that have their turn (as the updater's own, or in the
-- queue), those that were performed and those that readers can see, the latest first.
pub record History (T : Type 0) : Type 0 where
  pub calls : List (T → T)
  pub accepted : List (T → T)
  pub performed : List (T → T)
  pub published : List (T → T)

module _ {T : Type 0} where
  abbrev pub nothing_yet : History T
  nothing_yet = record { calls = []; accepted = []; performed = []; published = [] }

  abbrev pub perform_first : History T → List (T → T) → History T
  perform_first h [] = h
  perform_first h (f ∷ rest) = record h { performed = f ∷ h.performed }

  -- What a step of a thread in `update` adds.
  abbrev pub record_write : Rcu T → WritePc T → History T → History T
  record_write r (enqueueing f) h = record h { accepted = f ∷ h.accepted }
  record_write r (copied f p) h = record h { performed = f ∷ h.performed }
  record_write r (working p fin cnt unflushed) h =
      if ltb fin cnt then perform_first h r.update_queue else h
  record_write r (publishing p fin cnt) h = record h { published = h.performed }
  record_write r _ h = h

  abbrev pub record_step : System T → Action T → History T → History T
  record_step s (read i) h = h
  record_step s (call i f) h = record h {
    calls = f ∷ h.calls;
    accepted = if s.update_cnt == 0 then f ∷ h.accepted else h.accepted;
  }
  record_step s (write i fresh) h = record_write s.rcu (s.writes i) h

  -- `new` returns an address that holds no object.
  abbrev pub Allocates : System T → Action T → Type 0
  Allocates s (write i fresh) = s.heap fresh ≡ none
  Allocates s _ = Unit {0}

  -- The states that some interleaving leads to from an `rcu_protected` on a new object `v`, with the
  -- history of the way there.
  pub data Reach (c : Config) (p₀ : ℕ) (v : T) : History T → System T → Type 0 where
    begin : Reach c p₀ v nothing_yet (start p₀ v)
    later :
        {h h' : History T} {s s' : System T}
        → Reach c p₀ v h s
        → (a : Action T) → Allocates s a
        → step c s a ≡ done s'
        → h' ≡ record_step s a h
        → Reach c p₀ v h' s'
