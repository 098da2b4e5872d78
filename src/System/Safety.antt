-- ===== src/System/Safety.antt =====
-- What `rcu_protected` promises about memory, whatever the threads do and in whatever order.

use writeboost_rcu.Common.{ℕ, ◌<◌, ◌^◌, ◌≡◌, ◌≢◌, refl, length, total_unique, le-total, arith}
use writeboost_rcu.Rcu.{Config, Rcu}
use writeboost_rcu.Threads.{Outcome, fault, WritePc, idle, write_step}
use writeboost_rcu.System.{System, History, Action, read, call, write, step, Reach}
use writeboost_rcu.System.Registry.{is_updater}
use writeboost_rcu.System.Ownership.{private}
use writeboost_rcu.System.Faults.{write-ne-fault}
use writeboost_rcu.System.Memory.{copies, leaving}
use writeboost_rcu.System.Invariant.{Reach-Inv, one_updater}

module _ {T : Type 0} where
  -- In every reachable state at most one thread is the updater, as long as `update` was called fewer
  -- than 2^64 times.
  pub single_updater :
      {c : Config} {p₀ : ℕ} {v : T} {h : History T} {s : System T}
      → Reach c p₀ v h s
      → length h.calls < 2 ^ 64
      → (i j : ℕ) → i < c.threads
      → j < c.threads
      → is_updater (s.writes i) ≡ 1
      → is_updater (s.writes j) ≡ 1
      → i ≡ j
  single_updater {c} {s = s} r fits i j li lj a b =
      total_unique is_updater c.threads s.writes i j li lj (one_updater (Reach-Inv r fits).registry)
        (omega arith) (omega arith)

  call-ne-fault :
      (c : Config) (s : System T) (i : ℕ) (f : T → T) (pc : WritePc T)
      → s.writes i ≡ pc
      → step c s (call i f) ≢ fault
  unfolding step
  call-ne-fault c s i f idle q e = ground arith
  call-ne-fault c s i f _ q e = ground arith

  write-ne-fault_of :
      (c : Config) (s : System T) (i fresh : ℕ) (o : Outcome (Rcu T × WritePc T))
      → write_step c fresh s.rcu (s.writes i) ≡ o
      → (i < c.threads → o ≢ fault)
      → step c s (write i fresh) ≢ fault
  unfolding step
  write-ne-fault_of c s i fresh fault q sound e = ground (arith, sound)
  write-ne-fault_of c s i fresh _ q sound e = ground arith

  -- No step of any thread uses or deletes an address that holds no object, in a state that is
  -- reached by fewer than 2^64 calls of `update`.
  pub step-ne-fault :
      {c : Config} {p₀ : ℕ} {v : T} {h : History T} {s : System T}
      → Reach c p₀ v h s
      → length h.calls < 2 ^ 64
      → (a : Action T) → step c s a ≢ fault
  unfolding step
  step-ne-fault r fits (read i) e = ground arith
  step-ne-fault {c} {s = s} r fits (call i f) e = call-ne-fault c s i f (s.writes i) refl e
  step-ne-fault {c} {s = s} r fits (write i fresh) e =
      write-ne-fault_of c s i fresh _ refl
        (λ lt.
          write-ne-fault c fresh s.rcu (copies c s) (leaving c s) (s.writes i)
            (λ p. le-total (private p) c.threads s.writes i lt) (Reach-Inv r fits).memory.owned)
        e
