-- ===== src/System/Schedule.antt =====
-- Executions by evaluation: the states that a list of actions leads to, with the proof that they are
-- reachable. An action that has to wait is left out.
use writeboost_rcu.Common.{ℕ, ◌≡◌, refl, Option, none, some, List, [], ◌∷◌}
use writeboost_rcu.Rcu.{Config}
use writeboost_rcu.Threads.{Outcome, done, blocked, fault}
use writeboost_rcu.System.{
  System, History, Action, read, call, write, step, start, Allocates, nothing_yet, record_step,
  Reach, begin, later,
}

pub record Run {T : Type 0} (c : Config) (p₀ : ℕ) (v : T) : Type 0 where
  pub history : History T
  pub last : System T
  pub open last use *
  pub reach : Reach c p₀ v history last

module _ {T : Type 0} {c : Config} {p₀ : ℕ} {v : T} where
  advance :
      (r : Run c p₀ v) (a : Action T)
      → Allocates r.last a
      → (o : Outcome (System T)) → step c r.last a ≡ o
      → Run c p₀ v
  advance r a ok (done s) e = record {
    history = record_step r.last a r.history;
    last = s;
    reach = later r.reach a ok e refl;
  }
  advance r a ok blocked e = r
  advance r a ok fault e = r

  write_if_free : (r : Run c p₀ v) (i fresh : ℕ) (o : Option T) → r.last.heap fresh ≡ o → Run c p₀ v
  unfolding advance
  write_if_free r i fresh none e = advance r (write i fresh) e (step c r.last (write i fresh)) refl
  write_if_free r i fresh (some u) e = r

  pub act : Run c p₀ v → Action T → Run c p₀ v
  unfolding advance write_if_free step
  act r (read i) = advance r (read i) tt (step c r.last (read i)) refl
  act r (call i f) = advance r (call i f) tt (step c r.last (call i f)) refl
  act r (write i fresh) = write_if_free r i fresh (r.last.heap fresh) refl

  unfoldable pub run_from : Run c p₀ v → List (Action T) → Run c p₀ v
  unfolding act
  run_from r [] = r
  run_from r (a ∷ rest) = run_from (act r a) rest

module _ {T : Type 0} where
  unfoldable pub run : (c : Config) (p₀ : ℕ) (v : T) → List (Action T) → Run c p₀ v
  unfolding run_from start
  run c p₀ v = run_from (record { history = nothing_yet; last = start p₀ v; reach = begin })
