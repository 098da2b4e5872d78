-- ===== src/Buffered/Tests.antt =====
-- A counter that a reader holds while three updates go by.
use writeboost_rcu.Common.{ℕ, zero, suc, ◌+◌, ◌*◌, ◌≡◌, refl, some, List, [], ◌∷◌, ◌++◌}
use writeboost_rcu.Rcu.{Config}
use writeboost_rcu.System.{Action, call, write}
use writeboost_rcu.System.Schedule.{Run, run}

abbrev two_threads : Config
two_threads = record { hardware_concurrency = 1; flushing_threshold = 20; threads = 2 }

abbrev steps : ℕ → List (Action ℕ)
steps zero = []
steps (suc n) = write 0 99 ∷ steps n

-- A call of `update` by thread 0 and its steps up to the return.
abbrev update_by_0 : (ℕ → ℕ) → ℕ → List (Action ℕ)
update_by_0 f fresh = call 0 f ∷ write 0 fresh ∷ steps 11

abbrev three_updates : Run {T = ℕ} two_threads 10 5
three_updates =
    run two_threads 10 5
      (update_by_0 (λ x. x + 42) 11 ++ (update_by_0 (λ x. x * 2) 12 ++ update_by_0 (λ x. x + 1) 13))

-- With one hardware thread the third update is performed on the first object.
overwritten : three_updates.heap 10 ≡ some ((5 + 42) * 2 + 1)
unfolding run
overwritten = refl
