-- ===== src/Locks.antt =====
-- benchmark/common.hpp: `lock_protected` and `rwlock_protected`, which differ in the lock that they
-- hold, as one object over what they use of that lock; `std::mutex` and `std::shared_mutex` are two
-- such locks.
mod Moves
pub mod Protected
pub mod Mutexes
mod Tests
use writeboost_rcu.Common.{
  ℕ, zero, suc, ◌+◌, ◌≤◌, ◌<◌, ◌≡◌, Bool, true, false, Option, none, some, List, [], ◌∷◌,
  if◌then◌else◌, ltb, update,
}

-- A lock: how `get_ptr` takes it and gives it back, and how `update` does. `none` is a wait.
-- `Counts s r w` says that `r` threads hold `s` to read and `w` to write.
pub record Lock (State : Type 0) : Type 1 where
  pub free : State
  pub read_lock : State → Option State
  pub read_unlock : State → State
  pub write_lock : State → Option State
  pub write_unlock : State → State
  pub Counts : State → ℕ → ℕ → Type 0
  pub Counts-free : Counts free 0 0
  pub read_lock_lem :
      (s s' : State) (r w : ℕ)
      → Counts s r w
      → read_lock s ≡ some s'
      → (w ≡ 0) × Counts s' (suc r) w
  pub read_unlock_lem : (s : State) (r w : ℕ) → Counts s (suc r) w → Counts (read_unlock s) r w
  pub write_lock_lem :
      (s s' : State) (r w : ℕ)
      → Counts s r w
      → write_lock s ≡ some s'
      → (r ≡ 0) × (w ≡ 0) × Counts s' r (suc w)
  pub write_unlock_lem : (s : State) (r w : ℕ) → Counts s r (suc w) → Counts (write_unlock s) r w
  pub exclusive : (s : State) (r w : ℕ) → Counts s r w → 0 < w → (r ≡ 0) × (w ≡ 1)

-- Where a thread stands: with no lock, with the pointer of `get_ptr`, or in `update` with the lock
-- taken, before and after the callback.
pub data LockPc (T : Type 0) : Type 0 where
  outside : LockPc T
  reading : LockPc T
  updating : (f : T → T) → LockPc T
  leaving : LockPc T

-- `mut_` and the object that `ptr_` owns, and the threads.
pub record LockSystem (State T : Type 0) : Type 0 where
  pub mut : State
  pub object : T
  pub pcs : ℕ → LockPc T

pub data LockAction (T : Type 0) : Type 0 where
  get_ptr : (i : ℕ) → LockAction T
  start_update : (i : ℕ) (f : T → T) → LockAction T
  proceed : (i : ℕ) → LockAction T

abbrev pub finish_callback : {T : Type 0} → List (T → T) → LockPc T → List (T → T)
finish_callback fs (updating f) = f ∷ fs
finish_callback fs _ = fs

-- The callbacks that a step completes, before those completed so far.
abbrev pub performs :
    {State T : Type 0} → LockSystem State T → LockAction T → List (T → T) → List (T → T)
performs s (proceed i) fs = finish_callback fs (s.pcs i)
performs s _ fs = fs

module _ {State T : Type 0} (l : Lock State) where
  take : LockSystem State T → ℕ → LockPc T → Option State → Option (LockSystem State T)
  take s i pc none = none
  take s i pc (some m) = some (record s { mut = m; pcs = update s.pcs i pc })

  -- A call from a thread that holds no lock.
  enter : LockSystem State T → ℕ → LockPc T → Option State → LockPc T → Option (LockSystem State T)
  unfolding take
  enter s i pc m outside = take s i pc m
  enter s i pc m _ = none

  -- The deleter of the pointer, the callback, and the end of the `scoped_lock`.
  continue_at : LockSystem State T → ℕ → LockPc T → Option (LockSystem State T)
  continue_at s i outside = none
  continue_at s i reading =
      some (record s { mut = l.read_unlock s.mut; pcs = update s.pcs i outside })
  continue_at s i (updating f) =
      some (record s { object = f s.object; pcs = update s.pcs i leaving })
  continue_at s i leaving =
      some (record s { mut = l.write_unlock s.mut; pcs = update s.pcs i outside })

  -- A step of one of the `n` threads; `none` if it has to wait.
  unfoldable pub lock_step : ℕ → LockSystem State T → LockAction T → Option (LockSystem State T)
  unfolding enter continue_at
  lock_step n s (get_ptr i) =
      if ltb i n then enter s i reading (l.read_lock s.mut) (s.pcs i) else none
  lock_step n s (start_update i f) =
      if ltb i n then enter s i (updating f) (l.write_lock s.mut) (s.pcs i) else none
  lock_step n s (proceed i) = if ltb i n then continue_at s i (s.pcs i) else none

  unfoldable pub lock_start : T → LockSystem State T
  lock_start v = record { mut = l.free; object = v; pcs = λ _. outside }

  -- The states that some interleaving of `n` threads leads to, with the callbacks completed so far.
  pub data LockReach (n : ℕ) (v : T) : List (T → T) → LockSystem State T → Type 0 where
    begin : LockReach n v [] (lock_start v)
    later :
        {fs gs : List (T → T)} {s s' : LockSystem State T}
        → LockReach n v fs s
        → (a : LockAction T) → lock_step n s a ≡ some s'
        → gs ≡ performs s a fs
        → LockReach n v gs s'
