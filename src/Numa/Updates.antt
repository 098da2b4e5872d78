-- ===== src/Numa/Updates.antt =====
-- include/numa_temp/rcu_numa.hpp: `do_updates`, as the updater runs it when `updateCnt` calls were
-- made, all but its own are in the queue, and no further call arrives.
use writeboost_rcu.Common.{
  zero, ℕ, suc, ◌+◌, ◌%◌, ◌^◌, ◌++◌, length, Option, none, some, List, [], ◌∷◌, if◌then◌else◌, ◌==◌,
  ltb, ◌>>=◌, ℕ_discrete,
}
use writeboost_rcu.Rcu.{Config, succ64, queue_capacity}
use writeboost_rcu.Numa.{NumaRcu, Cell, invoke, get_copy, publish}

-- Where a batch ends: the memory, what is left of the queue, and `done`.
pub record Batch (T : Type 0) : Type 0 where
  pub heap : ℕ → Cell T
  pub queue : List (T → T)
  pub fin : ℕ

module _ {T : Type 0} where
  -- The two inner loops from `done` and `unflushed` on; `none` is undefined behaviour or a wait for an
  -- entry that nobody makes. A load of `m_updateCnt` gives `cnt` again, which ends the outer one.
  unfoldable pub collect : Config → ℕ → ℕ → (ℕ → Cell T) → ℕ → ℕ → List (T → T) → Option (Batch T)
  unfolding invoke
  collect c copied cnt h fin unflushed [] =
      if ltb fin cnt then none else some (record { heap = h; queue = []; fin = fin })
  collect c copied cnt h fin unflushed (f ∷ rest) =
      if ltb fin cnt
      then invoke h copied f >>= (λ h'.
        if succ64 unflushed == c.flushing_threshold
        then some (record { heap = h'; queue = rest; fin = succ64 fin })
        else collect c copied cnt h' (succ64 fin) (succ64 unflushed) rest)
      else some (record { heap = h; queue = f ∷ rest; fin = fin })

  -- One turn of the outer loop up to the publication.
  unfoldable pub flush : Config → ℕ → ℕ → NumaRcu T → Option (ℕ × NumaRcu T)
  unfolding collect publish
  flush c copied fin r = do
    b ← collect c copied r.update_cnt r.heap fin 0 r.update_queue
    r' ← publish c copied (record r { heap = b.heap; update_queue = b.queue })
    some (b.fin, r')

  -- The outer loop, with fuel for the publications; `alloc` is what the allocations return. Where
  -- `done == updateCnt` the compare-exchange succeeds.
  unfoldable pub do_updates : Config → ℕ → (ℕ → ℕ) → ℕ → ℕ → ℕ → NumaRcu T → Option (NumaRcu T)
  unfolding flush get_copy
  do_updates c node alloc zero copied fin r = none
  do_updates c node alloc (suc fuel) copied fin r = do
    (fin', r') ← flush c copied fin r
    elim (ℕ_discrete fin' r'.update_cnt) [
      | yes all ↦ some (record r' { update_cnt = 0 })
      | no more ↦
          get_copy r' node (alloc fuel)
          >>= (λ (next, r''). do_updates c node alloc fuel next fin' r'')
    ]

  -- The updater's branch of `update(f)`: `arriving` are the calls that others make before
  -- `do_updates` loads `m_updateCnt`.
  unfoldable pub serve :
      Config → ℕ → (ℕ → ℕ) → ℕ → (T → T) → List (T → T) → NumaRcu T → Option (NumaRcu T)
  unfolding get_copy invoke do_updates
  serve c node alloc fuel f arriving r = do
    (copied, r') ← get_copy r node (alloc fuel)
    h ← invoke r'.heap copied f
    do_updates c node alloc fuel copied 1 (record r' {
      heap = h;
      update_cnt = (1 + length arriving) % 2 ^ 64;
      update_queue = arriving;
    })

  -- `blockingWrite`; `none` where it waits.
  pub enqueue : Config → (T → T) → NumaRcu T → Option (NumaRcu T)
  enqueue c f r =
      if ltb (length r.update_queue) (queue_capacity c)
      then some
          (record r { update_cnt = succ64 r.update_cnt; update_queue = r.update_queue ++ f ∷ [] })
      else none

  -- `update(f)`
  unfoldable pub update_with_others :
      Config → ℕ → (ℕ → ℕ) → ℕ → (T → T) → List (T → T) → NumaRcu T → Option (NumaRcu T)
  unfolding serve enqueue
  update_with_others c node alloc fuel f arriving r =
      if r.update_cnt == 0 then serve c node alloc fuel f arriving r else enqueue c f r
