-- ===== src/Threads/Tests.antt =====
-- A retirement by a thread alone: with one hardware thread, the object at 10 is replaced by the one
-- at 11.
use writeboost_rcu.Common.{
  ℕ, ◌≡◌, ◌⊎◌, arith, refl, Bool, true, false, Option, none, some, List, [], ◌∷◌,
}
use writeboost_rcu.Heap.{create}
use writeboost_rcu.Rcu.{Config, Rcu, construct, retire}
use writeboost_rcu.Threads.{done, retiring, finishing}
use writeboost_rcu.Threads.Alone.{Alone}
use writeboost_rcu.Threads.Retire.{Untouched, PutAside, Recycled, retire_steps}

abbrev small : Config
small = record { hardware_concurrency = 1; flushing_threshold = 2; threads = 2 }

abbrev replaced : Rcu ℕ
replaced = record (construct 10 7) {
  heap = create (construct 10 7).heap 11 8;
  ptr = 11;
  update_cnt = 1;
}

-- The epoch and the list of the old one after a retirement.
after_retire : Option (Rcu ℕ) → Option (Bool × List ℕ)
after_retire none = none
after_retire (some r) = some (r.epoch, r.retire_lists false)

flips_at_once : after_retire (retire small replaced 10) ≡ some (true, 10 ∷ [])
unfolding retire construct after_retire
flips_at_once = refl

retire_steps_example :
    (k : Rcu ℕ) × Alone small 12 replaced (retiring 10 1 1) (done (k, finishing 1 1))
    × (retire small replaced 10 ≡ some k)
    × Untouched small replaced 10 k
    × (PutAside small replaced 10 k ⊎ Recycled small replaced 10 k)
unfolding construct
retire_steps_example = retire_steps small replaced 10 12 1 1 (λ p. omega arith)
