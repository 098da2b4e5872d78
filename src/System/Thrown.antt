-- ===== src/System/Thrown.antt =====
-- include/wbrcu/rcu_protected.hpp: callbacks that throw. `update` has no handler, so the exception
-- leaves it at `std::invoke` or at `updateToDo(copied)`, and nothing that the call has done is undone.
mod Stopped
pub mod Leaving
use writeboost_rcu.Common.{ℕ, ◌≡◌, Option, List, [], ◌∷◌, if◌then◌else◌, ltb}
use writeboost_rcu.Heap.{modify}
use writeboost_rcu.Rcu.{Config, Rcu}
use writeboost_rcu.Threads.{Outcome, done, blocked, fault, or_fault, WritePc, idle, copied, working}
use writeboost_rcu.System.{System, Action, read, call, write, write_from, step}

-- A step as before, or one in which the callback that thread `i` runs throws; `left` is what it has
-- made of the copy by then.
pub data ThrowAction (T : Type 0) : Type 0 where
  runs : (a : Action T) → ThrowAction T
  throws : (i : ℕ) (left : T) → ThrowAction T

module _ {T : Type 0} where
  -- In `do_updates`: the entry has been taken off the queue.
  unfoldable pub throw_first : Rcu T → T → ℕ → List (T → T) → Outcome (Rcu T × WritePc T)
  unfolding modify
  throw_first r left p [] = blocked
  throw_first r left p (f ∷ rest) =
      or_fault (λ h. (record r { heap = h; update_queue = rest }, idle))
        (modify r.heap p (λ _. left))

  -- A callback runs in `update`, and in the inner `while` of `do_updates`.
  unfoldable pub throw_from : Rcu T → T → WritePc T → Outcome (Rcu T × WritePc T)
  unfolding modify throw_first
  throw_from r left (copied f p) =
      or_fault (λ h. (record r { heap = h }, idle)) (modify r.heap p (λ _. left))
  throw_from r left (working p fin cnt unflushed) =
      if ltb fin cnt then throw_first r left p r.update_queue else blocked
  throw_from r left _ = blocked

  unfoldable pub throw_step : Config → System T → ThrowAction T → Outcome (System T)
  unfolding step write_from throw_from
  throw_step c s (runs a) = step c s a
  throw_step c s (throws i left) =
      if ltb i c.threads then write_from c s i 0 (throw_from s.rcu left (s.writes i)) else blocked

  abbrev pub called_on : ThrowAction T → List (T → T) → List (T → T)
  called_on (runs (call i f)) fs = f ∷ fs
  called_on _ fs = fs

  -- The states that any further steps lead to, with the calls of `update` on the way.
  pub data Onward (c : Config) (s : System T) : List (T → T) → System T → Type 0 where
    here : Onward c s [] s
    next :
        {fs gs : List (T → T)} {t t' : System T}
        → Onward c s fs t
        → (a : ThrowAction T) → throw_step c t a ≡ done t'
        → gs ≡ called_on a fs
        → Onward c s gs t'
