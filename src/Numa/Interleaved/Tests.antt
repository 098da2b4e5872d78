-- ===== src/Numa/Interleaved/Tests.antt =====
-- Runs of two threads of the NUMA class, without NUMA.
use writeboost_rcu.Common.{ℕ, ◌+◌, ◌≡◌, ◌≢◌, refl, Bool, false, List, [], ◌∷◌, arith}
use writeboost_rcu.Rcu.{Config}
use writeboost_rcu.Threads.{map_outcome, Outcome, done, fault}
use writeboost_rcu.System as Wbrcu
use writeboost_rcu.System.{History, Reach, step}
use writeboost_rcu.Numa.{Cell, absent, object, negative, on_node}
use writeboost_rcu.Numa.Threads.{reading}
use writeboost_rcu.Numa.Interleaved.{
  NumaSystem, NumaAction, read, call, write, numa_step, numa_start, Environment, asked, NumaReach,
  begin, later,
}
use writeboost_rcu.Numa.Interleaved.Simulation.{plain_system}
use writeboost_rcu.Numa.Interleaved.Runs.{numa_simulation, numa_step-ne-fault, numa_reader_keeps}

abbrev two : Config
two = record { hardware_concurrency = 1; flushing_threshold = 2; threads = 2 }

abbrev addresses : ℕ → ℕ
addresses node = 20 + node

-- A state with the way there.
record NumaRun (available : Bool) (max : ℕ) : Type 0 where
  calls : List (ℕ → ℕ)
  last : NumaSystem ℕ
  open last use *
  reach : NumaReach two available max addresses (λ p. 5) 10 7 calls last

module _ {available : Bool} {max : ℕ} where
  advance :
      (r : NumaRun available max) (a : NumaAction ℕ)
      → Environment r.last a
      → (o : Outcome (NumaSystem ℕ)) → numa_step two r.last a ≡ o
      → NumaRun available max
  advance r a env (done s) e = record {
    calls = asked a r.calls;
    last = s;
    reach = later r.reach a env e refl;
  }
  advance r a env _ e = r

  write_at :
      (r : NumaRun available max) (i fresh : ℕ) (cell : Cell ℕ)
      → r.last.heap fresh ≡ cell
      → NumaRun available max
  unfolding advance numa_step
  write_at r i fresh absent e = advance r (write i negative fresh) e _ refl
  write_at r i fresh _ e = r

  -- The threads run on node 0.
  run_from : NumaRun available max → List (NumaAction ℕ) → NumaRun available max
  unfolding write_at
  run_from r [] = r
  run_from r (read i answer ∷ rest) = run_from (advance r (read i negative) tt _ refl) rest
  run_from r (call i f ∷ rest) = run_from (advance r (call i f) tt _ refl) rest
  run_from r (write i answer fresh ∷ rest) = run_from (write_at r i fresh _ refl) rest

-- Without NUMA thread 1 holds the object at 10, and thread 0 has published one at 30.
abbrev replaced : NumaRun false 0
replaced =
    run_from
      (record { calls = []; last = numa_start false 0 addresses (λ p. 5) 10 7; reach = begin })
      (read 1 negative
        ∷ read 1 negative
        ∷ read 1 negative
        ∷ call 0 (λ x. x + 1)
        ∷ write 0 negative 30
        ∷ write 0 negative 99
        ∷ write 0 negative 99
        ∷ write 0 negative 99
        ∷ write 0 negative 99
        ∷ [])

replaced_state :
    (replaced.last.ptr ≡ 30)
    × (replaced.last.heap 30 ≡ object 8)
    × (replaced.last.heap 10 ≡ object 7)
    × (replaced.last.reads 1 ≡ reading 10)
unfolding run_from numa_start
replaced_state = (refl, refl, refl, refl)

numa_simulation_example :
    ((h : History ℕ) × Reach two 10 7 h (plain_system replaced.last) × (h.calls ≡ replaced.calls))
    × (map_outcome plain_system (numa_step two replaced.last (write 0 negative 99))
        ≡ step two (plain_system replaced.last) (Wbrcu.write 0 99))
numa_simulation_example = numa_simulation (write 0 negative 99) replaced.reach tt

numa_step-ne-fault_example : numa_step two replaced.last (read 0 (on_node 0)) ≢ fault
unfolding run_from numa_start
numa_step-ne-fault_example =
    numa_step-ne-fault (read 0 (on_node 0)) replaced.reach (omega arith) (0, refl)

-- Thread 1 holds the object at 10, and thread 0 has its callback before it.
abbrev held : NumaRun false 0
held =
    run_from
      (record { calls = []; last = numa_start false 0 addresses (λ p. 5) 10 7; reach = begin })
      (read 1 negative
        ∷ read 1 negative
        ∷ read 1 negative
        ∷ call 0 (λ x. x + 1)
        ∷ write 0 negative 30
        ∷ [])

abbrev next : NumaRun false 0
next = run_from held (write 0 negative 99 ∷ [])

numa_reader_keeps_example :
    (u : ℕ) × (held.last.heap 10 ≡ object u) × (next.last.heap 10 ≡ object u)
unfolding run_from numa_start
numa_reader_keeps_example =
    numa_reader_keeps {s' = next.last} 1 10 held.reach (omega arith) refl (write 0 negative 99) refl
      refl
