-- ===== src/FollyRcu/Tests.antt =====
-- A run of two threads over `quiescent`: thread 1 reads while thread 0 updates.
use writeboost_rcu.Common.{ℕ, ◌+◌, ◌≡◌, ◌≢◌, refl, Option, some, none, List, [], ◌∷◌, apply_all}
use writeboost_rcu.Threads.{Outcome, done, blocked, fault}
use writeboost_rcu.FollyRcu.{
  holding, FollySystem, FollyAction, reads_on, calls, updates_on, reclaims, folly_step, folly_start,
  publishes, New, FollyReach, begin, later,
}
use writeboost_rcu.FollyRcu.Quiescent.{Quiescent, quiescent}
use writeboost_rcu.FollyRcu.Safety.{folly_published, folly_reader_keeps}

-- A state with the way there.
record FollyRun : Type 0 where
  published : List (ℕ → ℕ)
  last : FollySystem Quiescent ℕ
  open last use *
  reach : FollyReach quiescent 2 10 5 published last

advance :
    (r : FollyRun) (a : FollyAction ℕ)
    → New quiescent r.last a
    → (o : Outcome (FollySystem Quiescent ℕ)) → folly_step quiescent 2 r.last a ≡ o
    → FollyRun
advance r a new (done s) e = record {
  published = publishes quiescent r.last a r.published;
  last = s;
  reach = later r.reach a new e refl;
}
advance r a new _ e = r

update_at : (r : FollyRun) (i fresh : ℕ) (o : Option ℕ) → r.last.heap fresh ≡ o → FollyRun
unfolding advance
update_at r i fresh none e = advance r (updates_on i fresh) e _ refl
update_at r i fresh (some v) e = r

run_from : FollyRun → List (FollyAction ℕ) → FollyRun
unfolding update_at folly_step
run_from r [] = r
run_from r (updates_on i fresh ∷ rest) = run_from (update_at r i fresh _ refl) rest
run_from r (reads_on i ∷ rest) = run_from (advance r (reads_on i) tt _ refl) rest
run_from r (calls i f ∷ rest) = run_from (advance r (calls i f) tt _ refl) rest
run_from r (reclaims p ∷ rest) = run_from (advance r (reclaims p) tt _ refl) rest

-- Thread 1 holds the object at 10, which thread 0 has replaced by one at 20 and is about to retire.
abbrev before_retire : FollyRun
before_retire =
    run_from (record { published = []; last = folly_start quiescent 10 5; reach = begin })
      (reads_on 1
        ∷ reads_on 1
        ∷ calls 0 (λ x. x + 1)
        ∷ updates_on 0 20
        ∷ updates_on 0 20
        ∷ updates_on 0 99
        ∷ updates_on 0 99
        ∷ updates_on 0 99
        ∷ [])

abbrev retired : FollyRun
retired = run_from before_retire (updates_on 0 99 ∷ [])

retired_state :
    (retired.ptr ≡ 20)
    × (retired.heap 20 ≡ some 6)
    × (retired.reads 1 ≡ holding 10)
    × (retired.domain ≡ record { readers = 1 ∷ []; pending = 10 ∷ [] })
    × (folly_step quiescent 2 retired.last (reclaims 10) ≡ blocked)
unfolding run_from folly_start quiescent
retired_state = (refl, refl, refl, refl, refl)

folly_published_example :
    (retired.heap retired.ptr ≡ some (apply_all retired.published 5))
    × ((a : FollyAction ℕ) → folly_step quiescent 2 retired.last a ≢ fault)
folly_published_example = folly_published quiescent 2 retired.reach

folly_reader_keeps_example : (u : ℕ) × (before_retire.heap 10 ≡ some u) × (retired.heap 10 ≡ some u)
unfolding run_from folly_start quiescent
folly_reader_keeps_example =
    folly_reader_keeps quiescent 2 before_retire.reach 1 10 refl (updates_on 0 99) refl refl
