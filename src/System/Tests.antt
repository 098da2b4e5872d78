-- ===== src/System/Tests.antt =====
-- Runs of the model, and the theorems at them.
mod Ends
mod Nested
mod Thrown
mod Freshness
mod Space
mod Own
use writeboost_rcu.Common.{
  false, ℕ, zero, suc, ◌+◌, ◌*◌, ◌^◌, ◌<◌, ◌≡◌, ◌≢◌, refl, Option, List, [], ◌∷◌, ◌++◌, none, some,
  true, length, sum_by, total, apply_all, arith,
}
use writeboost_rcu.Rcu.{Config, destroy}
use writeboost_rcu.Threads.{done, blocked, fault, idle, reading}
use writeboost_rcu.System.Progress.{progress}
use writeboost_rcu.System.{System, Action, read, call, write, step}
use writeboost_rcu.System.Accounts.{pending}
use writeboost_rcu.System.Schedule.{Run, run}
use writeboost_rcu.System.Safety.{single_updater, step-ne-fault}
use writeboost_rcu.System.Snapshot.{Holding, here, next, snapshot}
use writeboost_rcu.System.Lifetime.{destroy_total}
use writeboost_rcu.System.Delivery.{Reach-Accounted, published_value, settled_value}

abbrev small : Config
small = record { hardware_concurrency = 1; flushing_threshold = 2; threads = 3 }

abbrev repeat : ℕ → Action ℕ → List (Action ℕ)
repeat zero a = []
repeat (suc n) a = a ∷ repeat n a

-- A step that does not allocate: 99 stays free.
abbrev go : ℕ → ℕ → List (Action ℕ)
go i n = repeat n (write i 99)

-- One update from the call to the return; the copy is at 11.
abbrev one_update : Run {T = ℕ} small 10 0
one_update = run small 10 0 (call 0 (λ x. x + 42) ∷ write 0 11 ∷ go 0 15)

basic_update :
    (one_update.ptr ≡ 11)
    × (one_update.heap 11 ≡ some 42)
    × (one_update.update_cnt ≡ 0)
    × (one_update.writes 0 ≡ idle)
    × (one_update.heap 10 ≡ some 0)
    × (one_update.finished ≡ [])
    × (one_update.retire_lists true ≡ [])
    × (one_update.epoch ≡ true)
    × (one_update.retire_lists false ≡ 10 ∷ [])
unfolding run
basic_update = (refl, refl, refl, refl, refl, refl, refl, refl, refl)

-- Thread 1 holds the object at 10 while thread 0 registers as the updater.
abbrev held : Run {T = ℕ} small 10 0
held = run small 10 0 (repeat 3 (read 1))

abbrev registered_run : Run {T = ℕ} small 10 0
registered_run = run small 10 0 (call 0 (λ x. x + 42) ∷ call 2 (λ x. x * 2) ∷ [])

-- Two updates in one batch, while thread 1 reads the old object.
abbrev batch : Run {T = ℕ} small 10 0
batch = run small 10 0 (
    repeat 3 (read 1)
    ++ call 0 (λ x. x + 42) ∷ call 2 (λ x. x * 2) ∷ write 0 11 ∷ write 2 99 ∷ go 0 15)

batch_result :
    (batch.heap batch.ptr ≡ some 84)
    × (batch.reads 1 ≡ reading 10)
    × (batch.heap 10 ≡ some 0)
    × (batch.update_cnt ≡ 0)
unfolding run
batch_result = (refl, refl, refl, refl)

few_calls : length batch.history.calls < 2 ^ 64
unfolding run
few_calls = omega arith

single_updater_example : ◌≡◌ {A = ℕ} 0 0
unfolding run
single_updater_example =
    single_updater registered_run.reach (omega arith) 0 0 (omega arith) (omega arith) refl refl

step-ne-fault_example : step small batch.last (call 2 (λ x. x + 1)) ≢ fault
step-ne-fault_example = step-ne-fault batch.reach few_calls (call 2 (λ x. x + 1))

abbrev after_call : Run {T = ℕ} small 10 0
after_call = run small 10 0 (repeat 3 (read 1) ++ call 0 (λ x. x + 42) ∷ [])

held_longer : Holding small 1 10 held.history held.last after_call.history after_call.last
unfolding run
held_longer = next here (call 0 (λ x. x + 42)) tt refl refl refl

snapshot_example : after_call.heap held.ptr ≡ some 0
unfolding run
snapshot_example = snapshot held.reach refl held_longer (omega arith)

destroy_total_example :
    (heap : ℕ → Option ℕ) × (destroy batch.rcu ≡ some heap) × ((p : ℕ) → heap p ≡ none)
unfolding run
destroy_total_example = destroy_total batch.reach few_calls refl

Reach-Accounted_example :
    sum_by (λ f. f 1) batch.history.calls
    ≡ sum_by (λ f. f 1) batch.history.performed
      + sum_by (λ f. f 1) batch.update_queue
      + total (pending (λ f. f 1)) 3 batch.writes
Reach-Accounted_example = Reach-Accounted (λ f. f 1) batch.reach

published_value_example : batch.heap batch.ptr ≡ some (apply_all batch.history.published 0)
published_value_example = published_value batch.reach few_calls

settled_value_example :
    (batch.update_queue ≡ [])
    × (batch.history.performed ≡ batch.history.accepted)
    × ((w : (ℕ → ℕ) → ℕ) → sum_by w batch.history.performed ≡ sum_by w batch.history.calls)
    × (batch.heap batch.ptr ≡ some (apply_all batch.history.performed 0))
unfolding run
settled_value_example = settled_value batch.reach few_calls refl

-- The updater waits for thread 2, which has been counted and has not queued its update.
abbrev waiting : Run {T = ℕ} small 10 0
waiting = run small 10 0 (call 0 (λ x. x + 42) ∷ call 2 (λ x. x * 2) ∷ write 0 11 ∷ go 0 2)

updater_waits : step small waiting.last (write 0 99) ≡ blocked
unfolding run step
updater_waits = refl

progress_example :
    (i : ℕ) × (i < 3) × (s' : System ℕ) × (step small waiting.last (write i 99) ≡ done s')
unfolding run
progress_example = progress waiting.reach (omega arith) (omega arith) (omega arith) 99
