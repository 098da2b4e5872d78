-- ===== src/Numa/Threads.antt =====
-- include/numa_temp/rcu_numa.hpp, the order in which threads run it: one access to shared memory at a
-- step, as in writeboost_rcu.Threads.
use mathlib.Core.Option
use writeboost_rcu.Common.{
  ℕ, suc, ◌+◌, ◌/◌, Bool, not, Option, List, [], ◌∷◌, ◌++◌, if◌then◌else◌, ◌==◌, ltb, bit, length,
  update,
}
use writeboost_rcu.Readers.{increment, reading_of}
use writeboost_rcu.Rcu.{Config, set_list, succ64, queue_capacity}
use writeboost_rcu.Threads.{Outcome, done, blocked, or_fault}
use writeboost_rcu.Numa.{NumaRcu, rcu_read_unlock, get_copy, invoke, numa_free_all}

-- Where a thread stands in `get_ptr`, on `node`.
pub data NumaReadPc : Type 0 where
  outside : NumaReadPc
  locking : (node : ℕ) (epoch : Bool) → NumaReadPc  -- in `rcu_read_lock`, has loaded `m_epoch`
  locked : (node : ℕ) → NumaReadPc  -- before the load of the pointer
  reading : (p : ℕ) → NumaReadPc  -- holds `p`

-- Where a thread stands in `update`; `i` is the node that the loop of `do_updates` publishes on, and 0
-- where there is no such loop. `p`, `fin` and `cnt` are `copied`, `done` and `updateCnt`.
pub data NumaWritePc (T : Type 0) : Type 0 where
  idle : NumaWritePc T
  enqueueing : (f : T → T) → NumaWritePc T
  registered : (f : T → T) → NumaWritePc T
  copied : (f : T → T) (p : ℕ) → NumaWritePc T
  starting : (p : ℕ) → NumaWritePc T
  working : (p fin cnt unflushed : ℕ) → NumaWritePc T
  publishing : (i p fin cnt : ℕ) → NumaWritePc T
  retiring : (i p old fin cnt : ℕ) → NumaWritePc T
  scanning : (i p k fin cnt : ℕ) → NumaWritePc T
  reclaiming : (i p fin cnt : ℕ) → NumaWritePc T
  flipping : (i p fin cnt : ℕ) → NumaWritePc T
  finishing : (fin cnt : ℕ) → NumaWritePc T
  renewing : (fin cnt : ℕ) → NumaWritePc T

module _ {T : Type 0} where
  -- `node` is what `get_current_numa_node` returns, where the step calls it.
  unfoldable pub numa_read_step : ℕ → ℕ → NumaRcu T → NumaReadPc → NumaRcu T × NumaReadPc
  unfolding increment rcu_read_unlock
  numa_read_step i node r outside = (r, locking node r.epoch)
  numa_read_step i node r (locking on e) =
      (record r { counters = increment r.counters i (bit e) }, locked on)
  numa_read_step i node r (locked on) =
      (r, reading (if r.is_numa_available then r.node_ptrs on else r.ptr))
  numa_read_step i node r (reading p) = (rcu_read_unlock r i, outside)

  -- The `fetch_add` at the start of `update`.
  unfoldable pub numa_call_step : (T → T) → NumaRcu T → NumaRcu T × NumaWritePc T
  numa_call_step f r = (
    record r { update_cnt = succ64 r.update_cnt },
    if r.update_cnt == 0 then registered f else enqueueing f,
  )

  -- One turn of the inner `while` of `do_updates`, on the oldest entry of the queue.
  unfoldable pub numa_perform :
      Config → NumaRcu T → ℕ → ℕ → ℕ → ℕ → List (T → T) → Outcome (NumaRcu T × NumaWritePc T)
  unfolding invoke
  numa_perform c r p fin cnt unflushed [] = blocked
  numa_perform c r p fin cnt unflushed (f ∷ rest) =
      or_fault
        (λ h. (
          record r { heap = h; update_queue = rest },
          if succ64 unflushed == c.flushing_threshold
              then publishing 0 p (succ64 fin) cnt
              else working p (succ64 fin) cnt (succ64 unflushed),
        ))
        (invoke r.heap p f)

  -- After the inner `while`: the load of `m_updateCnt` and the test of the outer one.
  numa_reload : Config → NumaRcu T → ℕ → ℕ → ℕ → ℕ → NumaWritePc T
  numa_reload c r p fin cnt unflushed =
      if unflushed == c.flushing_threshold
      then publishing 0 p fin cnt
      else if fin == r.update_cnt
      then publishing 0 p fin r.update_cnt
      else working p fin r.update_cnt unflushed

  -- `exchange` of the pointer of node `i`, or of `m_ptr`.
  exchange_on : NumaRcu T → ℕ → ℕ → ℕ × NumaRcu T
  exchange_on r i p =
      if r.is_numa_available
      then (r.node_ptrs i, record r { node_ptrs = update r.node_ptrs i p })
      else (r.ptr, record r { ptr = p })

  -- The lists that `retire(old, i)` works on.
  lists_on : NumaRcu T → ℕ → Bool → List ℕ
  lists_on r i = if r.is_numa_available then r.node_retire_lists i else r.retire_lists

  set_lists_on : NumaRcu T → ℕ → (Bool → List ℕ) → NumaRcu T
  set_lists_on r i lists =
      if r.is_numa_available
      then record r { node_retire_lists = update r.node_retire_lists i lists }
      else record r { retire_lists = lists }

  -- `retire`: `push_back`, and the test of the size.
  unfoldable pub push_on : NumaRcu T → ℕ → ℕ → NumaRcu T
  unfolding lists_on set_lists_on
  push_on r i old = set_lists_on r i (set_list (lists_on r i) r.epoch (old ∷ lists_on r i r.epoch))

  unfoldable pub few_on : Config → NumaRcu T → ℕ → Bool
  unfolding lists_on
  few_on c r i = ltb (length (lists_on r i r.epoch)) (c.hardware_concurrency / (r.max_node + 1))

  -- `retire`: the swap with the list of the previous epoch, and the deletions.
  pool_on : NumaRcu T → ℕ → List ℕ
  pool_on r i = if r.is_numa_available then r.node_finished i else r.finished

  set_pool_on : NumaRcu T → ℕ → List ℕ → NumaRcu T
  set_pool_on r i ps =
      if r.is_numa_available
      then record r { node_finished = update r.node_finished i ps }
      else record r { finished = ps }

  unfoldable pub reclaim_on : NumaRcu T → ℕ → Option (NumaRcu T)
  unfolding numa_free_all lists_on set_lists_on pool_on set_pool_on
  reclaim_on r i =
      Option.map
        (λ h.
          let r' : NumaRcu T = record r { heap = h } in
          let swapped = set_pool_on r' i (lists_on r i (not r.epoch)) in
          set_lists_on swapped i (set_list (lists_on r i) (not r.epoch) []))
        (numa_free_all r.heap (pool_on r i))

  -- After `retire` on node `i`: the next node, or the end of the publication.
  unfoldable pub after_retire : NumaRcu T → ℕ → ℕ → ℕ → ℕ → NumaWritePc T
  after_retire r i p fin cnt =
      if r.is_numa_available
      then if ltb i r.max_node then publishing (i + 1) p fin cnt else finishing fin cnt
      else finishing fin cnt

  -- One byte of the scan in `epochIsClear(prev)`.
  numa_scan : Config → NumaRcu T → ℕ → ℕ → ℕ → ℕ → ℕ → NumaWritePc T
  unfolding after_retire
  numa_scan c r i p k fin cnt =
      if ltb k c.threads
      then if r.counters k == reading_of (bit (not r.epoch))
        then after_retire r i p fin cnt
        else scanning i p (suc k) fin cnt
      else reclaiming i p fin cnt

  -- `done == updateCnt && m_updateCnt.compare_exchange_strong(updateCnt, 0)`
  numa_finish : NumaRcu T → ℕ → ℕ → NumaRcu T × NumaWritePc T
  numa_finish r fin cnt =
      if fin == cnt
      then if r.update_cnt == cnt
        then (record r { update_cnt = 0 }, idle)
        else (r, renewing fin r.update_cnt)
      else (r, renewing fin cnt)

  -- One step of a thread in `update`; `fresh` is what an allocation in it returns.
  unfoldable pub numa_write_step :
      Config → ℕ → ℕ → NumaRcu T → NumaWritePc T → Outcome (NumaRcu T × NumaWritePc T)
  unfolding get_copy invoke numa_perform numa_reload exchange_on push_on few_on reclaim_on
      after_retire numa_scan numa_finish
  numa_write_step c node fresh r idle = blocked
  numa_write_step c node fresh r (enqueueing f) =
      if ltb (length r.update_queue) (queue_capacity c)
      then done (record r { update_queue = r.update_queue ++ f ∷ [] }, idle)
      else blocked
  numa_write_step c node fresh r (registered f) =
      or_fault (λ (p, r'). (r', copied f p)) (get_copy r node fresh)
  numa_write_step c node fresh r (copied f p) =
      or_fault (λ h. (record r { heap = h }, starting p)) (invoke r.heap p f)
  numa_write_step c node fresh r (starting p) = done (r, working p 1 r.update_cnt 0)
  numa_write_step c node fresh r (working p fin cnt unflushed) =
      if ltb fin cnt
      then numa_perform c r p fin cnt unflushed r.update_queue
      else done (r, numa_reload c r p fin cnt unflushed)
  numa_write_step c node fresh r (publishing i p fin cnt) =
      let (old, r') = exchange_on r i p in done (r', retiring i p old fin cnt)
  numa_write_step c node fresh r (retiring i p old fin cnt) =
      let r' = push_on r i old in
      done (r', if few_on c r' i then after_retire r' i p fin cnt else scanning i p 0 fin cnt)
  numa_write_step c node fresh r (scanning i p k fin cnt) = done (r, numa_scan c r i p k fin cnt)
  numa_write_step c node fresh r (reclaiming i p fin cnt) =
      or_fault (λ r'. (r', flipping i p fin cnt)) (reclaim_on r i)
  numa_write_step c node fresh r (flipping i p fin cnt) =
      done (record r { epoch = not r.epoch }, after_retire r i p fin cnt)
  numa_write_step c node fresh r (finishing fin cnt) = done (numa_finish r fin cnt)
  numa_write_step c node fresh r (renewing fin cnt) =
      or_fault (λ (p, r'). (r', working p fin cnt 0)) (get_copy r node fresh)
