-- ===== src/Rcu.antt =====
-- include/wbrcu/rcu_protected.hpp: the state of an `rcu_protected<T>` and its operations, each as it
-- runs with nothing in between. How the calls of several threads interleave is in System.antt.
pub mod Places
use mathlib.Core.Option
use writeboost_rcu.Common.{
  ℕ, ◌+◌, ◌*◌, ◌%◌, ◌^◌, Bool, true, false, not, ◌||◌, Option, none, some, List, [], ◌∷◌,
  if◌then◌else◌, ◌==◌, ltb, bit, length, ◌>>=◌,
}
use writeboost_rcu.Heap.{Heap, create, assign, free, free_all}
use writeboost_rcu.Readers.{Counters, increment, decrement, epoch_is_clear}

-- The constants of an instance: `WBRCU_HARDWARE_CONCURRENCY`, the template argument
-- `flushingThreshold`, and how many threads there are.
pub record Config : Type 0 where
  pub hardware_concurrency : ℕ
  pub flushing_threshold : ℕ
  pub threads : ℕ

-- A `std::vector` is the list of its elements with `back()` at the head; the queue has its oldest
-- entry at the head. `heap` is the memory that the pointers lead to.
pub record Rcu (T : Type 0) : Type 0 where
  pub heap : Heap T
  pub ptr : ℕ
  pub epoch : Bool
  pub counters : Counters
  pub retire_lists : Bool → List ℕ
  pub finished : List ℕ
  pub update_cnt : ℕ
  pub update_queue : List (T → T)

-- An element of a `std::array<std::vector<T*>, 2>` is replaced.
abbrev pub set_list : (Bool → List ℕ) → Bool → List ℕ → Bool → List ℕ
set_list lists true ps true = ps
set_list lists false ps false = ps
set_list lists true ps false = lists false
set_list lists false ps true = lists true

-- `update_cnt` is a `uint64_t`.
abbrev pub succ64 : ℕ → ℕ
succ64 n = (n + 1) % 2 ^ 64

abbrev pub queue_capacity : Config → ℕ
queue_capacity c = 500 * c.hardware_concurrency

module _ {T : Type 0} where
  -- `explicit rcu_protected(T* ptr)`, where `ptr` leads to the object `v`.
  unfoldable pub construct : ℕ → T → Rcu T
  construct p v = record {
    heap = create (λ _. none) p v;
    ptr = p;
    epoch = false;
    counters = λ _. 0;
    retire_lists = λ _. [];
    finished = [];
    update_cnt = 0;
    update_queue = [];
  }

  -- `~rcu_protected()`
  unfoldable pub destroy : Rcu T → Option (Heap T)
  unfolding free free_all
  destroy r = do
    h ← free r.heap r.ptr
    h ← free_all h (r.retire_lists false)
    h ← free_all h (r.retire_lists true)
    free_all h r.finished

  -- `rcu_read_lock` with the epoch that was loaded, and `rcu_read_unlock`, by a thread.
  unfoldable pub rcu_read_lock : Rcu T → ℕ → Bool → Rcu T
  unfolding increment
  rcu_read_lock r thread epoch = record r { counters = increment r.counters thread (bit epoch) }

  unfoldable pub rcu_read_unlock : Rcu T → ℕ → Rcu T
  unfolding decrement
  rcu_read_unlock r thread = record r { counters = decrement r.counters thread }

  -- Where `get_copy` puts the copy: in the object pool, or in new memory.
  place : Rcu T → T → ℕ → List ℕ → Option (ℕ × Rcu T)
  unfolding assign
  place r curr fresh [] = some (fresh, record r { heap = create r.heap fresh curr })
  place r curr fresh (pooled ∷ rest) =
      Option.map (λ h. (pooled, record r { heap = h; finished = rest })) (assign r.heap pooled curr)

  -- `fresh` is what `new` returns, if it is called.
  unfoldable pub get_copy : Rcu T → ℕ → Option (ℕ × Rcu T)
  unfolding place
  get_copy r fresh = elim (r.heap r.ptr) [ none ↦ none | some curr ↦ place r curr fresh r.finished ]

  -- The `fetch_add` of `try_register`, and whether this thread is now the updater.
  unfoldable pub fetch_add : Rcu T → Bool × Rcu T
  fetch_add r = (r.update_cnt == 0, record r { update_cnt = succ64 r.update_cnt })

  -- `m_ptr.exchange(copied)`
  unfoldable pub exchange : Rcu T → ℕ → ℕ × Rcu T
  exchange r copied = (r.ptr, record r { ptr = copied })

  -- `m_updateCnt.compare_exchange_strong(updateCnt, 0)`; the second part is `updateCnt` afterwards.
  unfoldable pub compare_exchange : Rcu T → ℕ → Bool × ℕ × Rcu T
  compare_exchange r expected =
      if r.update_cnt == expected
      then (true, expected, record r { update_cnt = 0 })
      else (false, r.update_cnt, r)

  -- The four parts of `retire`: `push_back` with the test of the size, `epochIsClear` of the
  -- previous epoch, the swap and the deletions, and the store to `m_epoch`.
  unfoldable pub push_retired : Rcu T → ℕ → Rcu T
  push_retired r p = record r {
    retire_lists = set_list r.retire_lists r.epoch (p ∷ r.retire_lists r.epoch);
  }

  unfoldable pub below_threshold : Config → Rcu T → Bool
  below_threshold c r = ltb (length (r.retire_lists r.epoch)) c.hardware_concurrency

  unfoldable pub prev_is_clear : Config → Rcu T → Bool
  unfolding epoch_is_clear
  prev_is_clear c r = epoch_is_clear c.threads r.counters (bit (not r.epoch))

  -- `std::swap(m_finished, m_retireLists[prev])`, then what was in the pool is deleted.
  unfoldable pub reclaim : Rcu T → Option (Rcu T)
  unfolding free free_all
  reclaim r =
      Option.map
        (λ h. record r {
          heap = h;
          retire_lists = set_list r.retire_lists (not r.epoch) [];
          finished = r.retire_lists (not r.epoch);
        })
        (free_all r.heap r.finished)

  unfoldable pub flip : Rcu T → Rcu T
  flip r = record r { epoch = not r.epoch }

  unfoldable pub retire_pushed : Config → Rcu T → Option (Rcu T)
  unfolding below_threshold prev_is_clear reclaim flip
  retire_pushed c r =
      if below_threshold c r || not (prev_is_clear c r) then some r else Option.map flip (reclaim r)

  unfoldable pub retire : Config → Rcu T → ℕ → Option (Rcu T)
  unfolding push_retired retire_pushed
  retire c r p = retire_pushed c (push_retired r p)
