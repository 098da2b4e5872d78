-- ===== src/System/Tests/Thrown.antt =====
-- A callback of the queue that throws, and a call of `update` after it.
use writeboost_rcu.Common.{ℕ, ◌+◌, ◌*◌, ◌≡◌, refl, some, [], ◌∷◌, arith}
use writeboost_rcu.Threads.{Outcome, done, idle}
use writeboost_rcu.System.{System, step, call, write}
use writeboost_rcu.System.Schedule.{Run, run}
use writeboost_rcu.System.Thrown.{runs, throws, throw_step, here, next}
use writeboost_rcu.System.Thrown.Leaving.{Abandoned, thrown_stops}
use writeboost_rcu.System.Tests.{small}

-- The updater 0 has run its own callback on the copy at 11, and takes up that of thread 2 next.
abbrev before_throw : Run {T = ℕ} small 10 0
before_throw = run small 10 0 (
    call 0 (λ x. x + 42)
    ∷ call 2 (λ x. x * 2)
    ∷ write 2 99
    ∷ write 0 11
    ∷ write 0 99
    ∷ write 0 99
    ∷ [])

abbrev reached : System ℕ → Outcome (System ℕ) → System ℕ
reached s (done t) = t
reached s _ = s

-- The callback throws when it has written 7; then thread 1 calls `update`.
abbrev thrown : System ℕ
unfolding throw_step
thrown = reached before_throw.last (throw_step small before_throw.last (throws 0 7))

abbrev asked_again : System ℕ
unfolding throw_step
asked_again = reached thrown (throw_step small thrown (runs (call 1 (λ x. x + 1))))

abbrev queued_again : System ℕ
unfolding throw_step
queued_again = reached asked_again (throw_step small asked_again (runs (write 1 99)))

thrown_state :
    (queued_again.heap 10 ≡ some 0)
    × (queued_again.ptr ≡ 10)
    × (queued_again.heap 11 ≡ some 7)
    × (queued_again.writes 0 ≡ idle)
    × (queued_again.writes 1 ≡ idle)
    × (queued_again.update_cnt ≡ 3)
    × (queued_again.update_queue ≡ (λ x. x + 1) ∷ [])
unfolding run throw_step step
thrown_state = (refl, refl, refl, refl, refl, refl, refl)

thrown_stops_example : Abandoned small before_throw.history.published 0 7 thrown queued_again
unfolding run throw_step step
thrown_stops_example =
    thrown_stops 0 7 before_throw.reach refl
      (next {t' = queued_again}
        (next {t' = asked_again} here (runs (call 1 (λ x. x + 1))) refl refl) (runs (write 1 99))
        refl refl)
      (omega arith)
