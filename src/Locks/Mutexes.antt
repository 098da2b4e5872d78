-- ===== src/Locks/Mutexes.antt =====
-- `std::mutex`, which `lock_protected` takes for readers too, and `std::shared_mutex`.
use writeboost_rcu.Common.{
  ℕ, suc, ◌+◌, ◌-◌, ◌<◌, ◌≡◌, refl, Bool, true, false, Option, none, some, if◌then◌else◌, ◌==◌, bit,
  arith,
}
use writeboost_rcu.Locks.{Lock}

-- `std::mutex` is held or not.
abbrev pub mutex_lock : Bool → Option Bool
mutex_lock held = if held then none else some true

abbrev pub MutexCounts : Bool → ℕ → ℕ → Type 0
MutexCounts held r w = bit held ≡ r + w

module _ (s s' : Bool) (r w : ℕ) where
  pub mutex_read : MutexCounts s r w → mutex_lock s ≡ some s' → (w ≡ 0) × MutexCounts s' (suc r) w
  mutex_read c e = ground arith

  pub mutex_write :
      MutexCounts s r w → mutex_lock s ≡ some s' → (r ≡ 0) × (w ≡ 0) × MutexCounts s' r (suc w)
  mutex_write c e = ground arith

module _ (s : Bool) (r w : ℕ) where
  pub mutex_read_end : MutexCounts s (suc r) w → MutexCounts false r w
  mutex_read_end c = ground arith

  pub mutex_write_end : MutexCounts s r (suc w) → MutexCounts false r w
  mutex_write_end c = ground arith

  pub mutex_exclusive : MutexCounts s r w → 0 < w → (r ≡ 0) × (w ≡ 1)
  mutex_exclusive c pos = ground arith

unfoldable pub mutex : Lock Bool
mutex = record {
  free = false;
  read_lock = mutex_lock;
  read_unlock = λ _. false;
  write_lock = mutex_lock;
  write_unlock = λ _. false;
  Counts = MutexCounts;
  Counts-free = refl;
  read_lock_lem = mutex_read;
  read_unlock_lem = mutex_read_end;
  write_lock_lem = mutex_write;
  write_unlock_lem = mutex_write_end;
  exclusive = mutex_exclusive;
}

-- `std::shared_mutex` counts the threads that share it.
pub record SharedMutex : Type 0 where
  pub sharers : ℕ
  pub owned : Bool

abbrev pub lock_shared : SharedMutex → Option SharedMutex
lock_shared m = if m.owned then none else some (record m { sharers = m.sharers + 1 })

abbrev pub unlock_shared : SharedMutex → SharedMutex
unlock_shared m = record m { sharers = m.sharers - 1 }

abbrev pub lock_whole : SharedMutex → Option SharedMutex
lock_whole m =
    if m.owned then none else if m.sharers == 0 then some (record m { owned = true }) else none

abbrev pub unlock_whole : SharedMutex → SharedMutex
unlock_whole m = record m { owned = false }

abbrev pub SharedCounts : SharedMutex → ℕ → ℕ → Type 0
SharedCounts m r w = (m.sharers ≡ r) × (bit m.owned ≡ w) × (0 < w → r ≡ 0)

module _ (s s' : SharedMutex) (r w : ℕ) where
  pub shared_read :
      SharedCounts s r w → lock_shared s ≡ some s' → (w ≡ 0) × SharedCounts s' (suc r) w
  shared_read c e = ground arith

  pub shared_write :
      SharedCounts s r w → lock_whole s ≡ some s' → (r ≡ 0) × (w ≡ 0) × SharedCounts s' r (suc w)
  shared_write c e = ground arith

module _ (s : SharedMutex) (r w : ℕ) where
  pub shared_read_end : SharedCounts s (suc r) w → SharedCounts (unlock_shared s) r w
  shared_read_end c = ground arith

  pub shared_write_end : SharedCounts s r (suc w) → SharedCounts (unlock_whole s) r w
  shared_write_end c = ground arith

  pub shared_exclusive : SharedCounts s r w → 0 < w → (r ≡ 0) × (w ≡ 1)
  shared_exclusive c pos = ground (arith, c.2)

unfoldable pub shared_mutex : Lock SharedMutex
shared_mutex = record {
  free = record { sharers = 0; owned = false };
  read_lock = lock_shared;
  read_unlock = unlock_shared;
  write_lock = lock_whole;
  write_unlock = unlock_whole;
  Counts = SharedCounts;
  Counts-free = (refl, refl, λ _. refl);
  read_lock_lem = shared_read;
  read_unlock_lem = shared_read_end;
  write_lock_lem = shared_write;
  write_unlock_lem = shared_write_end;
  exclusive = shared_exclusive;
}
