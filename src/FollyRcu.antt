-- ===== src/FollyRcu.antt =====
-- benchmark/common.hpp: `follyrcu_protected`, whose updates copy the object under a mutex and give
-- what they replace to the domain of folly.
pub mod Retirement
pub mod Quiescent
mod Tests
pub mod Safety
pub mod Updates
pub mod Steps
pub mod Reachable
pub mod Moves
pub mod Invariant
use writeboost_rcu.Common.{
  ℕ, ◌+◌, ◌<◌, ◌≡◌, Bool, true, false, Option, none, some, List, [], ◌∷◌, if◌then◌else◌, ltb,
  update,
}
use writeboost_rcu.Heap.{Heap, create, modify, free}
use writeboost_rcu.Threads.{Outcome, done, blocked, fault, or_fault}
use writeboost_rcu.FollyRcu.Retirement.{Domain}

-- Where a thread is in `get_ptr` and the life of its pointer.
pub data GetPtrPc : Type 0 where
  outside : GetPtrPc
  entered : GetPtrPc
  holding : (p : ℕ) → GetPtrPc

-- Where a thread is in `update`, before the access that the name says.
pub data UpdatePc (T : Type 0) : Type 0 where
  idle : UpdatePc T
  locking : (f : T → T) → UpdatePc T
  copying : (f : T → T) → UpdatePc T
  invoking : (f : T → T) (p : ℕ) → UpdatePc T
  exchanging : (f : T → T) (p : ℕ) → UpdatePc T
  unlocking : (old : ℕ) → UpdatePc T
  retiring : (old : ℕ) → UpdatePc T

-- `mut_`, `ptr_`, the memory and the domain.
pub record FollyRcu (State T : Type 0) : Type 0 where
  pub heap : Heap T
  pub ptr : ℕ
  pub is_locked : Bool
  pub domain : State

pub record FollySystem (State T : Type 0) : Type 0 where
  pub rcu : FollyRcu State T
  pub open rcu use *
  pub reads : ℕ → GetPtrPc
  pub updates : ℕ → UpdatePc T

-- A step of `get_ptr`, a call of `update`, a step in it, or a deleter that the domain runs.
pub data FollyAction (T : Type 0) : Type 0 where
  reads_on : (i : ℕ) → FollyAction T
  calls : (i : ℕ) (f : T → T) → FollyAction T
  updates_on : (i fresh : ℕ) → FollyAction T
  reclaims : (p : ℕ) → FollyAction T

module _ {State T : Type 0} (d : Domain State) where
  unfoldable pub get_ptr_step : ℕ → FollyRcu State T → GetPtrPc → FollyRcu State T × GetPtrPc
  get_ptr_step i r outside = (record r { domain = d.lock i r.domain }, entered)
  get_ptr_step i r entered = (r, holding r.ptr)
  get_ptr_step i r (holding p) = (record r { domain = d.unlock i r.domain }, outside)

  -- `new T{*ptr_}`, where `new` returns `fresh`.
  copy : ℕ → FollyRcu State T → (T → T) → Option T → Outcome (FollyRcu State T × UpdatePc T)
  copy fresh r f none = fault
  copy fresh r f (some v) = done (record r { heap = create r.heap fresh v }, invoking f fresh)

  unfoldable pub update_step :
      ℕ → FollyRcu State T → UpdatePc T → Outcome (FollyRcu State T × UpdatePc T)
  unfolding copy modify
  update_step fresh r idle = blocked
  update_step fresh r (locking f) =
      if r.is_locked then blocked else done (record r { is_locked = true }, copying f)
  update_step fresh r (copying f) = copy fresh r f (r.heap r.ptr)
  update_step fresh r (invoking f p) =
      or_fault (λ h. (record r { heap = h }, exchanging f p)) (modify r.heap p f)
  update_step fresh r (exchanging f p) = done (record r { ptr = p }, unlocking r.ptr)
  update_step fresh r (unlocking old) = done (record r { is_locked = false }, retiring old)
  update_step fresh r (retiring old) = done (record r { domain = d.rcu_retire old r.domain }, idle)

  -- The deleter of `rcu_retire`.
  reclaim_step : FollyRcu State T → ℕ → Option State → Outcome (FollyRcu State T)
  unfolding free
  reclaim_step r p none = blocked
  reclaim_step r p (some s) = or_fault (λ h. record r { heap = h; domain = s }) (free r.heap p)

  -- `~follyrcu_protected()`
  destroy : FollyRcu State T → FollyRcu State T
  destroy r = record r { domain = d.rcu_retire r.ptr r.domain }

  with_get_ptr : FollySystem State T → ℕ → FollyRcu State T × GetPtrPc → FollySystem State T
  with_get_ptr s i (r, pc) = record { rcu = r; reads = update s.reads i pc; updates = s.updates }

  with_update :
      FollySystem State T
      → ℕ
      → Outcome (FollyRcu State T × UpdatePc T)
      → Outcome (FollySystem State T)
  with_update s i (done (r, pc)) =
      done (record { rcu = r; reads = s.reads; updates = update s.updates i pc })
  with_update s i blocked = blocked
  with_update s i fault = fault

  call_update : FollySystem State T → ℕ → (T → T) → UpdatePc T → Outcome (FollySystem State T)
  call_update s i f idle = done (record s { updates = update s.updates i (locking f) })
  call_update s i f _ = blocked

  with_rcu : FollySystem State T → Outcome (FollyRcu State T) → Outcome (FollySystem State T)
  with_rcu s (done r) = done (record s { rcu = r })
  with_rcu s blocked = blocked
  with_rcu s fault = fault

  -- A step of one of the `n` threads, or of the domain.
  unfoldable pub folly_step :
      ℕ → FollySystem State T → FollyAction T → Outcome (FollySystem State T)
  unfolding get_ptr_step update_step reclaim_step with_get_ptr with_update call_update with_rcu
  folly_step n s (reads_on i) =
      if ltb i n then done (with_get_ptr s i (get_ptr_step i s.rcu (s.reads i))) else blocked
  folly_step n s (calls i f) = if ltb i n then call_update s i f (s.updates i) else blocked
  folly_step n s (updates_on i fresh) =
      if ltb i n then with_update s i (update_step fresh s.rcu (s.updates i)) else blocked
  folly_step n s (reclaims p) = with_rcu s (reclaim_step s.rcu p (d.reclaim p s.rcu.domain))

  -- `follyrcu_protected(T* ptr)`, where `p` leads to `v`.
  unfoldable pub folly_start : ℕ → T → FollySystem State T
  folly_start p v = record {
    rcu = record { heap = create (λ _. none) p v; ptr = p; is_locked = false; domain = d.initial };
    reads = λ _. outside;
    updates = λ _. idle;
  }

  -- `new` returns memory where no object lives.
  abbrev pub New : FollySystem State T → FollyAction T → Type 0
  New s (updates_on i fresh) = s.heap fresh ≡ none
  New s _ = Unit {0}

  -- What the exchanges published, the latest first.
  abbrev pub published_at : UpdatePc T → List (T → T) → List (T → T)
  published_at (exchanging f p) fs = f ∷ fs
  published_at _ fs = fs

  unfoldable pub publishes : FollySystem State T → FollyAction T → List (T → T) → List (T → T)
  publishes s (updates_on i fresh) fs = published_at (s.updates i) fs
  publishes s _ fs = fs

  -- The states that some interleaving leads to, with the published updates.
  pub data FollyReach (n p : ℕ) (v : T) : List (T → T) → FollySystem State T → Type 0 where
    begin : FollyReach n p v [] (folly_start p v)
    later :
        {fs gs : List (T → T)} {s s' : FollySystem State T}
        → FollyReach n p v fs s
        → (a : FollyAction T) → New s a
        → folly_step n s a ≡ done s'
        → gs ≡ publishes s a fs
        → FollyReach n p v gs s'
