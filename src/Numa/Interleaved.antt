-- ===== src/Numa/Interleaved.antt =====
-- include/numa_temp/rcu_numa.hpp: one `rcu_protected<T>` and the threads that use it, interleaved in
-- any order.
pub mod Plain
mod Tests
pub mod Runs
pub mod Simulation
use writeboost_rcu.Common.{
  ℕ, ◌≤◌, ◌≡◌, Bool, true, false, Option, none, some, List, [], ◌∷◌, if◌then◌else◌, ltb, update,
}
use writeboost_rcu.Rcu.{Config}
use writeboost_rcu.Threads.{Outcome, done, blocked, fault}
use writeboost_rcu.Numa.{
  absent, NumaRcu, construct, NodeAnswer, no_cpu, undefined_call, negative, on_node,
  get_current_numa_node,
}
use writeboost_rcu.Numa.Threads.{
  NumaReadPc, outside, NumaWritePc, idle, registered, renewing, numa_read_step, numa_call_step,
  numa_write_step,
}

pub record NumaSystem (T : Type 0) : Type 0 where
  pub rcu : NumaRcu T
  pub open rcu use *
  pub reads : ℕ → NumaReadPc
  pub writes : ℕ → NumaWritePc T

-- Which thread takes a step, and what it calls. `answer` is what a call of `get_current_numa_node` in
-- the step meets, and `fresh` what an allocation returns.
pub data NumaAction (T : Type 0) : Type 0 where
  read : (i : ℕ) (answer : NodeAnswer) → NumaAction T
  call : (i : ℕ) (f : T → T) → NumaAction T
  write : (i : ℕ) (answer : NodeAnswer) (fresh : ℕ) → NumaAction T

-- Whether the next step in `get_ptr` calls `get_current_numa_node`: the first does, also without NUMA.
abbrev pub read_asks : NumaReadPc → Bool
read_asks outside = true
read_asks _ = false

-- The node, where the step asks for it.
abbrev pub node_for : Bool → NodeAnswer → Option ℕ
node_for true answer = get_current_numa_node answer
node_for false answer = some 0

module _ {T : Type 0} where
  unfoldable pub numa_read : NumaSystem T → ℕ → NumaRcu T × NumaReadPc → NumaSystem T
  numa_read s i (r, pc) = record { rcu = r; reads = update s.reads i pc; writes = s.writes }

  numa_moved : NumaSystem T → ℕ → NumaRcu T × NumaWritePc T → NumaSystem T
  numa_moved s i (r, pc) = record { rcu = r; reads = s.reads; writes = update s.writes i pc }

  unfoldable pub numa_call : NumaSystem T → ℕ → (T → T) → NumaWritePc T → Outcome (NumaSystem T)
  unfolding numa_call_step numa_moved
  numa_call s i f idle = done (numa_moved s i (numa_call_step f s.rcu))
  numa_call s i f _ = blocked

  unfoldable pub numa_write :
      NumaSystem T → ℕ → Outcome (NumaRcu T × NumaWritePc T) → Outcome (NumaSystem T)
  unfolding numa_moved
  numa_write s i (done next) = done (numa_moved s i next)
  numa_write s i blocked = blocked
  numa_write s i fault = fault

  -- The same in `update`: in `get_copy` with NUMA.
  abbrev pub write_asks : NumaRcu T → NumaWritePc T → Bool
  write_asks r (registered f) = r.is_numa_available
  write_asks r (renewing fin cnt) = r.is_numa_available
  write_asks r _ = false

  abbrev pub with_node : (ℕ → Outcome (NumaSystem T)) → Option ℕ → Outcome (NumaSystem T)
  with_node next none = fault
  with_node next (some node) = next node

  -- A step of one of the `c.threads` threads.
  unfoldable pub numa_step : Config → NumaSystem T → NumaAction T → Outcome (NumaSystem T)
  unfolding numa_read_step numa_write_step numa_read numa_call numa_write get_current_numa_node
  numa_step c s (read i answer) =
      if ltb i c.threads
      then with_node (λ node. done (numa_read s i (numa_read_step i node s.rcu (s.reads i))))
          (node_for (read_asks (s.reads i)) answer)
      else blocked
  numa_step c s (call i f) = if ltb i c.threads then numa_call s i f (s.writes i) else blocked
  numa_step c s (write i answer fresh) =
      if ltb i c.threads
      then with_node (λ node. numa_write s i (numa_write_step c node fresh s.rcu (s.writes i)))
          (node_for (write_asks s.rcu (s.writes i)) answer)
      else blocked

  unfoldable pub numa_start : Bool → ℕ → (ℕ → ℕ) → (ℕ → T) → ℕ → T → NumaSystem T
  unfolding construct
  numa_start available max alloc bytes p v = record {
    rcu = construct available max alloc bytes p v;
    reads = λ _. outside;
    writes = λ _. idle;
  }

  -- Allocations return addresses where no memory is.
  abbrev pub Environment : NumaSystem T → NumaAction T → Type 0
  Environment s (write i answer fresh) = s.heap fresh ≡ absent
  Environment s _ = Unit {0}

  -- A call of `get_current_numa_node` in a reader's step returns.
  abbrev pub Answered : NumaSystem T → NumaAction T → Type 0
  Answered s (read i answer) = (node : ℕ) × (node_for (read_asks (s.reads i)) answer ≡ some node)
  Answered s _ = Unit {0}

  abbrev pub asked : NumaAction T → List (T → T) → List (T → T)
  asked (call i f) fs = f ∷ fs
  asked _ fs = fs

  -- The states that some interleaving leads to, with the calls of `update` on the way.
  pub data NumaReach (c : Config) (available : Bool) (max : ℕ) (alloc : ℕ → ℕ) (bytes : ℕ → T)
      (p₀ : ℕ) (v : T) : List (T → T) → NumaSystem T → Type 0 where
    begin :
        NumaReach c available max alloc bytes p₀ v [] (numa_start available max alloc bytes p₀ v)
    later :
        {fs gs : List (T → T)} {s s' : NumaSystem T}
        → NumaReach c available max alloc bytes p₀ v fs s
        → (a : NumaAction T) → Environment s a
        → numa_step c s a ≡ done s'
        → gs ≡ asked a fs
        → NumaReach c available max alloc bytes p₀ v gs s'
