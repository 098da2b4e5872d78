-- ===== src/System/Tests/Own.antt =====
-- A call of `update` that becomes the updater, from its registration to its return.
use writeboost_rcu.Common.{
  ℕ, ◌+◌, ◌*◌, ◌<◌, ◌^◌, ◌≡◌, refl, Option, some, none, List, [], ◌∷◌, ◌++◌, length, apply_all,
  arith,
}
use writeboost_rcu.Threads.{Outcome, done, idle, registered}
use writeboost_rcu.System.{System, History, Action, read, call, write, step, Allocates, record_step}
use writeboost_rcu.System.Schedule.{Run, run}
use writeboost_rcu.System.Freshness.{own, During, here, next}
use writeboost_rcu.System.Own.{own_update_visible}
use writeboost_rcu.System.Tests.{small, go}

-- Thread 0 has registered, after an update of thread 1.
abbrev joined : Run {T = ℕ} small 10 0
joined = run small 10 0 (call 1 (λ x. x + 3) ∷ write 1 11 ∷ go 1 15 ++ call 0 (λ x. x + 42) ∷ [])

record Span : Type 0 where
  taken : ℕ
  history : History ℕ
  last : System ℕ
  open last use *
  during : During small 0 joined.history joined.last taken history last

advance :
    (r : Span) (a : Action ℕ)
    → Allocates r.last a
    → (o : Outcome (System ℕ)) → step small r.last a ≡ o
    → Span
advance r a ok (done s) e = record {
  taken = own 0 a + r.taken;
  history = record_step r.last a r.history;
  last = s;
  during = next r.during a ok e refl refl;
}
advance r a ok _ e = r

write_free : (r : Span) (i fresh : ℕ) (o : Option ℕ) → r.last.heap fresh ≡ o → Span
unfolding advance
write_free r i fresh none e = advance r (write i fresh) e (step small r.last (write i fresh)) refl
write_free r i fresh (some u) e = r

run_span : Span → List (Action ℕ) → Span
unfolding advance write_free step
run_span r [] = r
run_span r (read i ∷ rest) = run_span (advance r (read i) tt (step small r.last (read i)) refl) rest
run_span r (call i f ∷ rest) =
    run_span (advance r (call i f) tt (step small r.last (call i f)) refl) rest
run_span r (write i fresh ∷ rest) = run_span (write_free r i fresh (r.last.heap fresh) refl) rest

-- Thread 2 joins before thread 0 has copied; thread 0 performs both updates and returns.
abbrev returned_run : Span
returned_run =
    run_span (record { taken = 0; history = joined.history; last = joined.last; during = here })
      (call 2 (λ x. x * 2) ∷ write 2 99 ∷ read 1 ∷ write 0 12 ∷ go 0 15)

returned_state :
    (returned_run.last.writes 0 ≡ idle)
    × (joined.last.writes 0 ≡ registered (λ x. x + 42))
    × (returned_run.last.heap 12 ≡ some 90)
    × (returned_run.last.ptr ≡ 12)
    × (length returned_run.history.calls ≡ 3)
unfolding run run_span
returned_state = (refl, refl, refl, refl, refl)

few : length returned_run.history.calls < 2 ^ 64
few = rw returned_state.4 (omega arith)

own_update_visible_example :
    (newer : List (ℕ → ℕ)) × (returned_run.history.published
      ≡ newer ++ (λ x. x + 42) ∷ joined.history.published)
    × (returned_run.last.heap returned_run.last.ptr
        ≡ some (apply_all newer (apply_all joined.history.published 0 + 42)))
own_update_visible_example =
    own_update_visible joined.reach (omega arith) returned_state.1 returned_run.during few
      returned_state.0
