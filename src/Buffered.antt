-- ===== src/Buffered.antt =====
-- include/wbrcu/rcu_protected.hpp: the steps of System.antt where a reader's store of its byte may wait
-- in a store buffer while the reader goes on. The store is relaxed and the load of `m_ptr` after it
-- acquires, so nothing in the source orders the two, and common processors do not either.
pub mod Fenced
pub mod Stale
mod Tests
use writeboost_rcu.Common.{ℕ, ◌≡◌, Bool, if◌then◌else◌, ltb, update, none}
use writeboost_rcu.Rcu.{Config, Rcu, construct, rcu_read_lock, rcu_read_unlock}
use writeboost_rcu.Threads.{Outcome, done, blocked, fault, WritePc, idle, call_step, write_step}

-- Where a thread stands in `get_ptr`; `epoch` is what its byte is to say and does not say yet.
pub data BufferedPc : Type 0 where
  outside : BufferedPc  -- holds no pointer
  locking : (epoch : Bool) → BufferedPc  -- in `rcu_read_lock`, has loaded `m_epoch`
  stored : (epoch : Bool) → BufferedPc  -- the store waits, before the load of `m_ptr`
  locked : BufferedPc  -- the byte is written, before the load of `m_ptr`
  ahead : (epoch : Bool) (p : ℕ) → BufferedPc  -- holds `p`, while the store waits
  reading : (p : ℕ) → BufferedPc  -- holds `p`, and the byte is written

pub record BufferedSystem (T : Type 0) : Type 0 where
  pub rcu : Rcu T
  pub open rcu use *
  pub reads : ℕ → BufferedPc
  pub writes : ℕ → WritePc T

pub data BufferedAction (T : Type 0) : Type 0 where
  read : (i : ℕ) → BufferedAction T
  drain : (i : ℕ) → BufferedAction T  -- the processor writes what waits
  call : (i : ℕ) (f : T → T) → BufferedAction T
  write : (i fresh : ℕ) → BufferedAction T

module _ {T : Type 0} where
  -- The reader's own next step. The byte of 0 that gives the pointer back is written after the one
  -- that waits.
  unfoldable pub read_on : ℕ → Rcu T → BufferedPc → Rcu T × BufferedPc
  unfolding rcu_read_lock rcu_read_unlock
  read_on i r outside = (r, locking r.epoch)
  read_on i r (locking e) = (r, stored e)
  read_on i r (stored e) = (r, ahead e r.ptr)
  read_on i r locked = (r, reading r.ptr)
  read_on i r (ahead e p) = (rcu_read_unlock (rcu_read_lock r i e) i, outside)
  read_on i r (reading p) = (rcu_read_unlock r i, outside)

  unfoldable pub drained : ℕ → Rcu T → BufferedPc → Rcu T × BufferedPc
  unfolding rcu_read_lock
  drained i r (stored e) = (rcu_read_lock r i e, locked)
  drained i r (ahead e p) = (rcu_read_lock r i e, reading p)
  drained i r pc = (r, pc)

  unfoldable pub with_reader : BufferedSystem T → ℕ → Rcu T × BufferedPc → BufferedSystem T
  with_reader s i (r, pc) = record s { rcu = r; reads = update s.reads i pc }

  unfoldable pub with_writer : BufferedSystem T → ℕ → Rcu T × WritePc T → BufferedSystem T
  with_writer s i (r, pc) = record s { rcu = r; writes = update s.writes i pc }

  unfoldable pub called : BufferedSystem T → ℕ → (T → T) → WritePc T → Outcome (BufferedSystem T)
  unfolding call_step with_writer
  called s i f idle = done (with_writer s i (call_step f s.rcu))
  called s i f _ = blocked

  unfoldable pub written :
      BufferedSystem T → ℕ → Outcome (Rcu T × WritePc T) → Outcome (BufferedSystem T)
  unfolding with_writer
  written s i (done next) = done (with_writer s i next)
  written s i blocked = blocked
  written s i fault = fault

  -- A step of one of the `c.threads` threads.
  unfoldable pub buffered_step :
      Config → BufferedSystem T → BufferedAction T → Outcome (BufferedSystem T)
  unfolding read_on drained with_reader called written write_step
  buffered_step c s (read i) =
      if ltb i c.threads then done (with_reader s i (read_on i s.rcu (s.reads i))) else blocked
  buffered_step c s (drain i) =
      if ltb i c.threads then done (with_reader s i (drained i s.rcu (s.reads i))) else blocked
  buffered_step c s (call i f) = if ltb i c.threads then called s i f (s.writes i) else blocked
  buffered_step c s (write i fresh) =
      if ltb i c.threads then written s i (write_step c fresh s.rcu (s.writes i)) else blocked

  unfoldable pub buffered_start : ℕ → T → BufferedSystem T
  unfolding construct
  buffered_start p v = record { rcu = construct p v; reads = λ _. outside; writes = λ _. idle }

  abbrev pub Allocates : BufferedSystem T → BufferedAction T → Type 0
  Allocates s (write i fresh) = s.heap fresh ≡ none
  Allocates s _ = Unit {0}

  -- The states that some interleaving leads to from an `rcu_protected` on a new object.
  pub data BufferedReach (c : Config) (p₀ : ℕ) (v : T) : BufferedSystem T → Type 0 where
    begin : BufferedReach c p₀ v (buffered_start p₀ v)
    later :
        {s s' : BufferedSystem T}
        → BufferedReach c p₀ v s
        → (a : BufferedAction T) → Allocates s a
        → buffered_step c s a ≡ done s'
        → BufferedReach c p₀ v s'
