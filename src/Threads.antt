-- ===== src/Threads.antt =====
-- include/wbrcu/rcu_protected.hpp: where a thread stands in `get_ptr` and in `update`, and its next
-- step. A step makes one access to what the threads share: `m_epoch`, a reader's byte,
-- `m_ptr`, `m_updateCnt` or `m_updateQueue`. What only the updater touches goes with such an access
-- or has a step of its own.
-- A thread has one place in the reader's code and one in the updater's, which move independently, so
-- a callback may read and a reader may update. A call of `update` inside a callback is a call by
-- another thread number.
pub mod Alone
pub mod Retire
mod Tests
use writeboost_rcu.Common.{
  ℕ, suc, Bool, not, Option, none, some, List, [], ◌∷◌, ◌++◌, if◌then◌else◌, ◌==◌, ltb, bit, length,
}
use writeboost_rcu.Heap.{modify}
use writeboost_rcu.Readers.{reading_of}
use writeboost_rcu.Rcu.{
  Config, Rcu, queue_capacity, succ64, rcu_read_lock, rcu_read_unlock, get_copy, fetch_add,
  exchange, compare_exchange, push_retired, below_threshold, reclaim, flip,
}

-- A step is taken, has to wait, or is undefined behaviour.
pub data Outcome {ℓ} (A : Type ℓ) : Type ℓ where
  done : A → Outcome A
  blocked : Outcome A
  fault : Outcome A

abbrev pub or_fault {ℓ κ} : {A : Type ℓ} {B : Type κ} → (A → B) → Option A → Outcome B
or_fault f none = fault
or_fault f (some a) = done (f a)

-- A change of the state that a step leads to.
abbrev pub map_outcome {ℓ κ} : {A : Type ℓ} {B : Type κ} → (A → B) → Outcome A → Outcome B
map_outcome g (done a) = done (g a)
map_outcome g blocked = blocked
map_outcome g fault = fault

-- Where a thread stands in `get_ptr` and the life of the pointer that it returns.
pub data ReadPc : Type 0 where
  outside : ReadPc  -- holds no pointer
  locking : (epoch : Bool) → ReadPc  -- in `rcu_read_lock`, has loaded `m_epoch`
  locked : ReadPc  -- before the load of `m_ptr`
  reading : (p : ℕ) → ReadPc  -- holds `p`, and gives it back next

-- Where a thread stands in `update`, with the local variables that are live there: `p` is `copied`,
-- and `fin` and `cnt` are `done` and `updateCnt` of `do_updates`.
pub data WritePc (T : Type 0) : Type 0 where
  idle : WritePc T
  enqueueing : (f : T → T) → WritePc T  -- before `blockingWrite`
  registered : (f : T → T) → WritePc T  -- before `get_copy` in `try_register`
  copied : (f : T → T) (p : ℕ) → WritePc T  -- before `std::invoke`
  starting : (p : ℕ) → WritePc T  -- before the first load of `m_updateCnt`
  working : (p fin cnt unflushed : ℕ) → WritePc T  -- at the inner `while`
  publishing : (p fin cnt : ℕ) → WritePc T  -- before `m_ptr.exchange`
  retiring : (old fin cnt : ℕ) → WritePc T  -- at the start of `retire`
  scanning : (k fin cnt : ℕ) → WritePc T  -- in `epochIsClear`, at thread `k`
  reclaiming : (fin cnt : ℕ) → WritePc T  -- before the swap in `retire`
  flipping : (fin cnt : ℕ) → WritePc T  -- before the store to `m_epoch`
  finishing : (fin cnt : ℕ) → WritePc T  -- before the compare-exchange
  renewing : (fin cnt : ℕ) → WritePc T  -- before `get_copy` at the end of the loop

module _ {T : Type 0} where
  unfoldable pub read_step : ℕ → Rcu T → ReadPc → Rcu T × ReadPc
  unfolding rcu_read_lock rcu_read_unlock
  read_step i r outside = (r, locking r.epoch)
  read_step i r (locking e) = (rcu_read_lock r i e, locked)
  read_step i r locked = (r, reading r.ptr)
  read_step i r (reading p) = (rcu_read_unlock r i, outside)

  -- The start of `update`: the first to come is the updater.
  unfoldable pub call_step : (T → T) → Rcu T → Rcu T × WritePc T
  unfolding fetch_add
  call_step f r =
      let (first, r') = fetch_add r in (r', if first then registered f else enqueueing f)

  -- One turn of the inner `while`, on the oldest entry of the queue.
  unfoldable pub perform :
      Config → Rcu T → ℕ → ℕ → ℕ → ℕ → List (T → T) → Outcome (Rcu T × WritePc T)
  unfolding modify
  perform c r p fin cnt unflushed [] = blocked
  perform c r p fin cnt unflushed (f ∷ rest) =
      or_fault
        (λ h. (
          record r { heap = h; update_queue = rest },
          if succ64 unflushed == c.flushing_threshold
              then publishing p (succ64 fin) cnt
              else working p (succ64 fin) cnt (succ64 unflushed),
        ))
        (modify r.heap p f)

  -- After the inner `while`: the load of `m_updateCnt` and the test of the outer one.
  reload : Config → Rcu T → ℕ → ℕ → ℕ → ℕ → Rcu T × WritePc T
  reload c r p fin cnt unflushed = (
    r,
    if unflushed == c.flushing_threshold
        then publishing p fin cnt
        else if fin == r.update_cnt
        then publishing p fin r.update_cnt
        else working p fin r.update_cnt unflushed,
  )

  -- One byte of the scan in `epochIsClear(prev)`.
  scan : Config → Rcu T → ℕ → ℕ → ℕ → WritePc T
  scan c r k fin cnt =
      if ltb k c.threads
      then if r.counters k == reading_of (bit (not r.epoch))
        then finishing fin cnt
        else scanning (suc k) fin cnt
      else reclaiming fin cnt

  -- `done == updateCnt && m_updateCnt.compare_exchange_strong(updateCnt, 0)`
  finish : Rcu T → ℕ → ℕ → Rcu T × WritePc T
  unfolding compare_exchange
  finish r fin cnt =
      let (swapped, cnt', r') = compare_exchange r cnt in
      if fin == cnt
      then (r', if swapped then idle else renewing fin cnt')
      else (r, renewing fin cnt)

  -- One step of a thread in `update`; `fresh` is what `new` returns, if the step calls it.
  unfoldable pub write_step : Config → ℕ → Rcu T → WritePc T → Outcome (Rcu T × WritePc T)
  unfolding get_copy modify exchange push_retired below_threshold reclaim flip perform reload scan
      finish
  write_step c fresh r idle = blocked
  write_step c fresh r (enqueueing f) =
      if ltb (length r.update_queue) (queue_capacity c)
      then done (record r { update_queue = r.update_queue ++ f ∷ [] }, idle)
      else blocked
  write_step c fresh r (registered f) = or_fault (λ (p, r'). (r', copied f p)) (get_copy r fresh)
  write_step c fresh r (copied f p) =
      or_fault (λ h. (record r { heap = h }, starting p)) (modify r.heap p f)
  write_step c fresh r (starting p) = done (r, working p 1 r.update_cnt 0)
  write_step c fresh r (working p fin cnt unflushed) =
      if ltb fin cnt
      then perform c r p fin cnt unflushed r.update_queue
      else done (reload c r p fin cnt unflushed)
  write_step c fresh r (publishing p fin cnt) =
      let (old, r') = exchange r p in done (r', retiring old fin cnt)
  write_step c fresh r (retiring old fin cnt) =
      let r' = push_retired r old in
      done (r', if below_threshold c r' then finishing fin cnt else scanning 0 fin cnt)
  write_step c fresh r (scanning k fin cnt) = done (r, scan c r k fin cnt)
  write_step c fresh r (reclaiming fin cnt) = or_fault (λ r'. (r', flipping fin cnt)) (reclaim r)
  write_step c fresh r (flipping fin cnt) = done (flip r, finishing fin cnt)
  write_step c fresh r (finishing fin cnt) = done (finish r fin cnt)
  write_step c fresh r (renewing fin cnt) =
      or_fault (λ (p, r'). (r', working p fin cnt 0)) (get_copy r fresh)
