-- ===== src/System/Tests/Nested.antt =====
-- A callback that calls `update` while the queue is full.
use writeboost_rcu.Common.{
  ℕ, zero, suc, ◌+◌, ◌*◌, ◌≤◌, ◌≡◌, refl, List, [], ◌∷◌, ◌++◌, length, update, arith,
}
use writeboost_rcu.Rcu.{queue_capacity}
use writeboost_rcu.Threads.{enqueueing, read_step}
use writeboost_rcu.System.{System, History, Action, step, read, call, write}
use writeboost_rcu.System.Schedule.{Run, run}
use writeboost_rcu.System.Nested.{Without, here, next, nested_call_waits}
use writeboost_rcu.System.Tests.{small}

-- Thread 1 queues updates one after the other.
calls_of_1 : ℕ → List (Action ℕ)
calls_of_1 zero = []
calls_of_1 (suc n) = call 1 (λ x. x + 1) ∷ write 1 99 ∷ calls_of_1 n

-- The updater 0 is about to run its callback, whose own call stands for thread 2.
abbrev full_run : Run {T = ℕ} small 10 0
unfolding calls_of_1
full_run =
    run small 10 0 (call 0 (λ x. x + 42) ∷ write 0 11 ∷ calls_of_1 500 ++ call 2 (λ x. x * 2) ∷ [])

is_full : queue_capacity small ≤ length full_run.update_queue
unfolding run calls_of_1
is_full = omega arith

-- Another thread starts to read.
reads_on : (s : System ℕ) → System ℕ
unfolding read_step
reads_on s = record s {
  rcu = (read_step 1 s.rcu (s.reads 1)).0;
  reads = update s.reads 1 (read_step 1 s.rcu (s.reads 1)).1;
}

other_goes_on : (h : History ℕ) (s : System ℕ) → Without small 0 h s h (reads_on s)
unfolding reads_on step
other_goes_on h s = next here (read 1) tt (λ fresh e. cc) refl refl

nested_call_waits_example : (reads_on full_run.last).writes 2 ≡ enqueueing (λ x. x * 2)
unfolding run calls_of_1
nested_call_waits_example =
    nested_call_waits {n = 2} full_run.reach (other_goes_on full_run.history full_run.last)
      (omega arith) (omega arith) refl is_full refl
