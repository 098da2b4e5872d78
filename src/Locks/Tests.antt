-- ===== src/Locks/Tests.antt =====
-- A reader and an update behind each lock.
use writeboost_rcu.Common.{ℕ, ◌<◌, ◌≡◌, ◌≢◌, refl, [], none, true, false, update, arith}
use writeboost_rcu.Locks.{
  outside, reading, LockSystem, get_ptr, lock_step, lock_start, LockReach, begin, later,
}
use writeboost_rcu.Locks.Mutexes.{mutex, SharedMutex, shared_mutex}
use writeboost_rcu.Locks.Protected.{lock_excludes, is_writing}

abbrev shared_start : LockSystem SharedMutex ℕ
shared_start = lock_start shared_mutex 5

-- Threads 0 and 1 share the object; thread 0 then gives its pointer back.
abbrev one_reads : LockSystem SharedMutex ℕ
one_reads = record {
  mut = record { sharers = 1; owned = false };
  object = 5;
  pcs = update (λ _. outside) 0 reading;
}

one_reads-LockReach : LockReach shared_mutex 2 5 [] one_reads
unfolding lock_start shared_mutex lock_step
one_reads-LockReach = later begin (get_ptr 0) refl refl

abbrev both_read : LockSystem SharedMutex ℕ
both_read = record {
  mut = record { sharers = 2; owned = false };
  object = 5;
  pcs = update (update (λ _. outside) 0 reading) 1 reading;
}

lock_excludes_example :
    (one_reads.object ≡ 5)
    × (0 < is_writing (one_reads.pcs 0) → (j : ℕ) → j < 2 → j ≢ 0 → one_reads.pcs j ≡ outside)
    × (one_reads.pcs 0 ≡ reading → both_read.object ≡ one_reads.object)
unfolding lock_step shared_mutex
lock_excludes_example =
    lock_excludes shared_mutex one_reads-LockReach (get_ptr 1) refl 0 (omega arith)

-- A thread that holds a pointer under `std::mutex` keeps a second reader waiting.
mutex_waits :
    lock_step {T = ℕ} mutex 2
      (record { mut = true; object = 5; pcs = update (λ _. outside) 0 reading })
      (get_ptr 1)
    ≡ none
unfolding lock_step mutex
mutex_waits = refl
