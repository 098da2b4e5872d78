-- ===== src/FollyRcu/Retirement.antt =====
-- What benchmark/common.hpp uses of `folly::rcu_default_domain()`, which is not of this repository.
use writeboost_rcu.Common.{ℕ, ◌+◌, ◌≡◌, ◌≢◌, ◌<◌, Bool, true, Option, none, some, ◌==◌, bit}

-- The operations, and what is documented of them. `inside s t` says that thread `t` is between `lock`
-- and `unlock`; `retired s p` is how often `p` waits for its deleter; `waits s t p` says that `p` was
-- retired in a section of `t` that still goes on. `reclaim` runs a deleter, if the domain may.
pub record Domain (State : Type 0) : Type 0 where
  pub initial : State
  pub lock : ℕ → State → State
  pub unlock : ℕ → State → State
  pub rcu_retire : ℕ → State → State
  pub reclaim : ℕ → State → Option State
  pub inside : State → ℕ → Bool
  pub retired : State → ℕ → ℕ
  pub waits : State → ℕ → ℕ → Bool
  pub initial_retired : (p : ℕ) → retired initial p ≡ 0
  pub lock_retired : (t p : ℕ) (s : State) → retired (lock t s) p ≡ retired s p
  pub unlock_retired : (t p : ℕ) (s : State) → retired (unlock t s) p ≡ retired s p
  pub retire_retired :
      (p q : ℕ) (s : State) → retired (rcu_retire p s) q ≡ bit (q == p) + retired s q
  pub reclaim_retired :
      (p q : ℕ) (s s' : State) → reclaim p s ≡ some s' → bit (q == p) + retired s' q ≡ retired s q
  pub lock_inside : (t : ℕ) (s : State) → inside (lock t s) t ≡ true
  pub lock_other : (t u : ℕ) (s : State) → inside s u ≡ true → inside (lock t s) u ≡ true
  pub unlock_other :
      (t u : ℕ) (s : State) → t ≢ u → inside s u ≡ true → inside (unlock t s) u ≡ true
  pub retire_inside : (p u : ℕ) (s : State) → inside s u ≡ true → inside (rcu_retire p s) u ≡ true
  pub reclaim_inside :
      (p u : ℕ) (s s' : State) → reclaim p s ≡ some s' → inside s u ≡ true → inside s' u ≡ true
  pub retire_waits : (p u : ℕ) (s : State) → inside s u ≡ true → waits (rcu_retire p s) u p ≡ true
  pub lock_waits : (t u p : ℕ) (s : State) → waits s u p ≡ true → waits (lock t s) u p ≡ true
  pub unlock_waits :
      (t u p : ℕ) (s : State) → t ≢ u → waits s u p ≡ true → waits (unlock t s) u p ≡ true
  pub more_waits : (q u p : ℕ) (s : State) → waits s u p ≡ true → waits (rcu_retire q s) u p ≡ true
  pub reclaim_waits :
      (q u p : ℕ) (s s' : State) → reclaim q s ≡ some s' → waits s u p ≡ true → waits s' u p ≡ true
  pub waits_retired : (u p : ℕ) (s : State) → waits s u p ≡ true → 0 < retired s p
  pub waits_reclaim : (u p : ℕ) (s : State) → waits s u p ≡ true → reclaim p s ≡ none
