-- ===== src/System/Tests/Ends.antt =====
-- Runs that end, and how far a run can leave readers behind.
use writeboost_rcu.Common.{
  ℕ, ◌+◌, ◌*◌, ◌≤◌, ◌<◌, ◌⊎◌, ◌≡◌, refl, [], ◌∷◌, ◌++◌, some, length, sum_by, apply_all, arith,
}
use writeboost_rcu.Threads.{done, idle}
use writeboost_rcu.System.{System, History, call, write, step}
use writeboost_rcu.System.Schedule.{Run, run}
use writeboost_rcu.System.Termination.{Settling, here, write_next, updates_taken, updates_end}
use writeboost_rcu.System.Completion.{Updating, completion}
use writeboost_rcu.System.Latency.{latency}
use writeboost_rcu.System.Refinement.{Spec, SpecReach, refinement}
use writeboost_rcu.System.Tests.{small, go, waiting}

-- Thread 2 queues its update, which the updater waits for.
abbrev queued : Run {T = ℕ} small 10 0
queued = run small 10 0 (
    call 0 (λ x. x + 42)
    ∷ call 2 (λ x. x * 2)
    ∷ write 0 11
    ∷ write 0 99
    ∷ write 0 99
    ∷ write 2 99
    ∷ [])

one_step : Settling small waiting.history waiting.last queued.history queued.last
unfolding run
one_step = write_next here 2 99 refl refl refl

updates_end_example :
    (updates_taken one_step ≤ (waiting.update_cnt + 1) * (3 + 30) + 3)
    × (((queued.update_cnt ≡ 0) × ((j : ℕ) → j < 3 → queued.writes j ≡ idle))
        ⊎ ((i : ℕ) × (i < 3) × (t : System ℕ) × (step small queued.last (write i 99) ≡ done t)))
unfolding run
updates_end_example = updates_end 99 waiting.reach (omega arith) (omega arith) one_step

completion_example :
    (k : History ℕ) × (t : System ℕ) × Updating small waiting.history waiting.last k t
    × (t.update_cnt ≡ 0)
    × (t.update_queue ≡ [])
    × ((w : (ℕ → ℕ) → ℕ) → sum_by w k.performed ≡ sum_by w waiting.history.calls)
    × (t.heap t.ptr ≡ some (apply_all k.performed 0))
unfolding run
completion_example = completion waiting.reach (omega arith) (omega arith)

-- With a threshold of two, three updates are performed before the first publication.
abbrev behind_readers : Run {T = ℕ} small 10 0
behind_readers = run small 10 0 (
    call 0 (λ x. x + 42)
    ∷ call 2 (λ x. x * 2)
    ∷ call 1 (λ x. x + 1)
    ∷ write 2 99
    ∷ write 1 99
    ∷ write 0 11
    ∷ go 0 4)

three_behind :
    (length behind_readers.history.performed ≡ 3) × (length behind_readers.history.published ≡ 0)
unfolding run
three_behind = (refl, refl)

latency_example :
    length behind_readers.history.performed
    ≤ length behind_readers.history.published + small.flushing_threshold + 1
unfolding run
latency_example = latency behind_readers.reach (omega arith) (omega arith) (omega arith)

refinement_example :
    (a : Spec ℕ) × SpecReach 0 behind_readers.history.accepted a
    × (behind_readers.heap behind_readers.ptr ≡ some a.seen)
    × (behind_readers.history.accepted ≡ a.waiting ++ behind_readers.history.published)
    × ((0 < behind_readers.update_cnt) ⊎ (a.waiting ≡ []))
unfolding run
refinement_example = refinement behind_readers.reach (omega arith)
