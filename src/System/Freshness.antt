-- ===== src/System/Freshness.antt =====
-- `get_ptr` returns after three steps of its own, whatever the other threads do, with an object that
-- was published between its call and its return.
pub mod Publications
pub mod Reads
use mathlib.Core.List.{append_assoc}
use writeboost_rcu.Common.{
  apply_all, ℕ, ◌+◌, ◌≤◌, ◌<◌, ◌^◌, ◌≡◌, ◌⊎◌, refl, ap, sym, subst, ◌∙◌, Bool-cases, ltb, inl, inr,
  some, List, [], ◌∷◌, ◌++◌, length, update, ℕ_discrete, arith, ◌==◌, bit,
}
use writeboost_rcu.Rcu.{Config, Rcu}
use writeboost_rcu.Heap.{Heap}
use writeboost_rcu.Threads.{done, ReadPc, outside, locking, locked, reading, WritePc, read_step}
use writeboost_rcu.System.{
  System, History, Action, read, call, write, step, Allocates, record_step, record_write, Reach,
  later,
}
use writeboost_rcu.System.Moves.{Stepped, reads, calls, writes, step-Stepped}
use writeboost_rcu.System.Registry.{calls-le, read_step-same}
use writeboost_rcu.System.Snapshot.{held_step}
use writeboost_rcu.System.Delivery.{published_value}
use writeboost_rcu.System.Refinement.Growth.{Extends, Reach-Extends, Shows, record_write-Shows}

module _ {T : Type 0} where
  -- How many steps thread `i` takes in `get_ptr` by an action.
  abbrev pub own : ℕ → Action T → ℕ
  own i (read j) = bit (i == j)
  own i _ = 0

  -- Any steps, `n` of them by thread `i` in `get_ptr`.
  pub data During (c : Config) (i : ℕ) (h : History T) (s : System T)
      : ℕ → History T → System T → Type 0 where
    here : During c i h s 0 h s
    next :
        {n m : ℕ} {k k' : History T} {t t' : System T}
        → During c i h s n k t
        → (a : Action T) → Allocates t a
        → step c t a ≡ done t'
        → k' ≡ record_step t a k
        → m ≡ own i a + n
        → During c i h s m k' t'
