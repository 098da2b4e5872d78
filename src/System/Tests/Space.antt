-- ===== src/System/Tests/Space.antt =====
-- Two updates, one after the other, while a reader comes and goes.
use writeboost_rcu.Common.{
  ℕ, ◌+◌, ◌*◌, ◌≤◌, ◌<◌, ◌^◌, ◌≡◌, refl, not, Option, some, none, List, [], ◌∷◌, ◌++◌, length,
  ℕ_discrete, bit, arith,
}
use writeboost_rcu.Readers.{reading_of}
use writeboost_rcu.Rcu.{Rcu}
use writeboost_rcu.Threads.{Outcome, done, WritePc, scanning}
use writeboost_rcu.System.{
  System, History, Action, read, call, write, step, start, nothing_yet, Allocates, record_step,
}
use writeboost_rcu.System.Space.{Passes, Unobstructed, Clear, begin, later}
use writeboost_rcu.System.Space.Bounds.{retired_bound}
use writeboost_rcu.System.Tests.{small, repeat, go}

-- A state with the way there.
record ClearRun : Type 0 where
  history : History ℕ
  last : System ℕ
  open last use *
  clear : Clear small 10 0 history last

advance :
    (r : ClearRun) (a : Action ℕ)
    → Allocates r.last a
    → Unobstructed r.last a
    → (o : Outcome (System ℕ)) → step small r.last a ≡ o
    → ClearRun
advance r a ok free (done s) e = record {
  history = record_step r.last a r.history;
  last = s;
  clear = later r.clear a ok free e refl;
}
advance r a ok free _ e = r

passes : (r : Rcu ℕ) (pc : WritePc ℕ) → Option (Passes r pc)
passes r (scanning k fin cnt) = elim (ℕ_discrete (r.counters k) (reading_of (bit (not r.epoch)))) [
  | yes met ↦ none
  | no free ↦ some free
]
passes r _ = some tt

write_on :
    (r : ClearRun) (i fresh : ℕ) (o : Option ℕ)
    → r.last.heap fresh ≡ o
    → Option (Passes r.last.rcu (r.last.writes i))
    → ClearRun
unfolding advance
write_on r i fresh none e (some free) =
    advance r (write i fresh) e free (step small r.last (write i fresh)) refl
write_on r i fresh _ e _ = r

run_on : ClearRun → List (Action ℕ) → ClearRun
unfolding advance write_on passes step
run_on r [] = r
run_on r (read i ∷ rest) = run_on (advance r (read i) tt tt (step small r.last (read i)) refl) rest
run_on r (call i f ∷ rest) =
    run_on (advance r (call i f) tt tt (step small r.last (call i f)) refl) rest
run_on r (write i fresh ∷ rest) =
    run_on (write_on r i fresh (r.last.heap fresh) refl (passes r.last.rcu (r.last.writes i))) rest

abbrev two_updates : ClearRun
two_updates =
    run_on (record { history = nothing_yet; last = start 10 0; clear = begin })
      (repeat 3 (read 1)
        ++ call 0 (λ x. x + 42) ∷ write 0 11 ∷ go 0 15
        ++ repeat 1 (read 1)
        ++ call 2 (λ x. x * 2) ∷ write 2 12 ∷ go 2 15)

two_updates_state :
    (two_updates.last.finished ≡ 10 ∷ [])
    × (two_updates.last.ptr ≡ 12)
    × (two_updates.last.heap 12 ≡ some 84)
    × (two_updates.last.retire_lists two_updates.last.epoch ≡ [])
    × (two_updates.last.retire_lists (not two_updates.last.epoch) ≡ 11 ∷ [])
unfolding run_on start ℕ_discrete
two_updates_state = (refl, refl, refl, refl, refl)

call_count : length two_updates.history.calls ≡ 2
unfolding run_on start ℕ_discrete
call_count = refl

few_updates : length two_updates.history.calls < 2 ^ 64
few_updates = rw call_count (omega arith)

retired_bound_example :
    (length (two_updates.last.retire_lists two_updates.last.epoch) ≤ 1)
    × (length (two_updates.last.retire_lists (not two_updates.last.epoch)) ≤ 1)
    × (length two_updates.last.finished ≤ 1)
retired_bound_example = retired_bound two_updates.clear few_updates (omega arith)
