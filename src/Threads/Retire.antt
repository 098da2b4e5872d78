-- ===== src/Threads/Retire.antt =====
-- include/wbrcu/rcu_protected.hpp: what `retire` leaves, by the steps of the updater and by the
-- function.

use writeboost_rcu.Common.{
  ℕ, zero, suc, ◌≤◌, ◌<◌, ◌≡◌, ◌≢◌, ◌⊎◌, refl, ap, subst, Bool, true, false, not, bit, none, some,
  inl, inr, Bool-cases, ltb, ◌∙◌, Option, ==_iff, List, [], ◌∷◌, length, count, arith,
}
use writeboost_rcu.Heap.{Heap, allocated, free_all}
use writeboost_rcu.Heap.Free.{allocated-zero, free_all-count, free_all-keeps, free_all_total}
use writeboost_rcu.Readers.{Counters, reading_of, any_reading}
use writeboost_rcu.Readers.Clear.{any_reading-hit}
use writeboost_rcu.Rcu.{Config, Rcu, set_list, retire, push_retired}
use writeboost_rcu.Threads.{or_fault, done, retiring, finishing}
use writeboost_rcu.Threads.Alone.{Alone, retire-Alone}

any_reading-found :
    (n : ℕ) (m : Counters) (reading : ℕ)
    → any_reading n m reading ≡ true
    → (i : ℕ) × (i < n) × (m i ≡ reading)
unfolding any_reading
any_reading-found zero m reading e = absurd (ground arith)
any_reading-found (suc n) m reading e = elim (Bool-cases (any_reading n m reading)) [
  | inl before ↦ let (i, lt, at) = any_reading-found n m reading before in (i, omega arith, at)
  | inr last ↦ (n, omega arith, (==_iff (m n) reading).0 (ground arith))
]

set_list-same : (lists : Bool → List ℕ) (e : Bool) (ps : List ℕ) → set_list lists e ps e ≡ ps
set_list-same lists true ps = refl
set_list-same lists false ps = refl

set_list-other :
    (lists : Bool → List ℕ) (e : Bool) (ps : List ℕ) → set_list lists e ps (not e) ≡ lists (not e)
set_list-other lists true ps = refl
set_list-other lists false ps = refl

set_list-back :
    (lists : Bool → List ℕ) (e : Bool) (ps : List ℕ) → set_list lists (not e) ps e ≡ lists e
set_list-back lists true ps = refl
set_list-back lists false ps = refl

allocated-le : {T : Type 0} (o : Option T) → allocated o ≤ 1
allocated-le none = omega arith
allocated-le (some v) = omega arith

module _ {T : Type 0} (c : Config) (r : Rcu T) (old : ℕ) where
  -- `m_retireLists` of the current epoch and of the other.
  abbrev current : List ℕ
  current = r.retire_lists r.epoch

  abbrev previous : List ℕ
  previous = r.retire_lists (not r.epoch)

  abbrev reader : ℕ
  reader = reading_of (bit (not r.epoch))

  -- What no retirement touches.
  abbrev pub Untouched : Rcu T → Type 0
  Untouched k =
      (k.ptr ≡ r.ptr)
      × (k.counters ≡ r.counters)
      × (k.update_cnt ≡ r.update_cnt)
      × (k.update_queue ≡ r.update_queue)

  -- The old object is put aside, and that is all: there are too few, or somebody reads in the previous
  -- epoch.
  abbrev pub PutAside : Rcu T → Type 0
  PutAside k =
      ((suc (length current) < c.hardware_concurrency)
        ⊎ ((i : ℕ) × (i < c.threads) × (r.counters i ≡ reader)))
      × (k.epoch ≡ r.epoch)
      × (k.retire_lists r.epoch ≡ old ∷ current)
      × (k.retire_lists (not r.epoch) ≡ previous)
      × (k.finished ≡ r.finished)
      × (k.heap ≡ r.heap)

  -- The pool is deleted, the objects of the previous epoch become the pool, and the epochs change
  -- places: there are enough, and nobody reads in the previous epoch.
  abbrev pub Recycled : Rcu T → Type 0
  Recycled k =
      (c.hardware_concurrency ≤ suc (length current))
      × ((i : ℕ) → i < c.threads → r.counters i ≢ reader)
      × (k.epoch ≡ not r.epoch)
      × (k.retire_lists r.epoch ≡ old ∷ current)
      × (k.retire_lists (not r.epoch) ≡ [])
      × (k.finished ≡ previous)
      × ((p : ℕ) → 0 < count p r.finished → k.heap p ≡ none)
      × ((p : ℕ) → count p r.finished ≡ 0 → k.heap p ≡ r.heap p)

  pushed-Untouched : Untouched (push_retired r old)
  unfolding push_retired
  pushed-Untouched = (refl, refl, refl, refl)

  pushed-PutAside :
      (suc (length current) < c.hardware_concurrency)
        ⊎ ((i : ℕ) × (i < c.threads) × (r.counters i ≡ reader))
      → PutAside (push_retired r old)
  unfolding push_retired
  pushed-PutAside why = (
    why,
    refl,
    set_list-same r.retire_lists r.epoch (old ∷ current),
    set_list-other r.retire_lists r.epoch (old ∷ current),
    refl,
    refl,
  )

  -- The pushed state with the pool deleted and the epochs exchanged.
  recycled : Heap T → Rcu T
  unfolding push_retired
  recycled h = record (push_retired r old) {
    heap = h;
    retire_lists = set_list (push_retired r old).retire_lists (not r.epoch) [];
    finished = (push_retired r old).retire_lists (not r.epoch);
    epoch = not r.epoch;
  }

  recycled-Recycled :
      (h : Heap T)
      → free_all r.heap r.finished ≡ some h
      → c.hardware_concurrency ≤ suc (length current)
      → ((i : ℕ) → i < c.threads → r.counters i ≢ reader)
      → Untouched (recycled h) × Recycled (recycled h)
  unfolding recycled push_retired
  recycled-Recycled h e many clear = (
    (refl, refl, refl, refl),
    (
      many,
      clear,
      refl,
      set_list-back (set_list r.retire_lists r.epoch (old ∷ current)) r.epoch []
          ∙ set_list-same r.retire_lists r.epoch (old ∷ current),
      set_list-same (set_list r.retire_lists r.epoch (old ∷ current)) (not r.epoch) [],
      set_list-other r.retire_lists r.epoch (old ∷ current),
      λ p listed.
          allocated-zero (h p)
            (omega (arith, free_all-count r.heap r.finished p {h' = h} e, allocated-le (r.heap p))),
      λ p apart. free_all-keeps r.heap r.finished p {h' = h} e apart,
    ),
  )

  pushed_length : length ((push_retired r old).retire_lists r.epoch) ≡ suc (length current)
  unfolding push_retired
  pushed_length = ap length (set_list-same r.retire_lists r.epoch (old ∷ current))

  -- `retire` returns when no address stands in the pool more often than there is an object at it.
  retire_lem :
      ((p : ℕ) → count p r.finished ≤ allocated (r.heap p))
      → (k : Rcu T) × (retire c r old ≡ some k) × Untouched k × (PutAside k ⊎ Recycled k)
  unfolding retire recycled push_retired
  retire_lem owned = elim (Bool-cases (ltb (suc (length current)) c.hardware_concurrency)) [
    | inl few ↦ (
      push_retired r old,
      rw (pushed_length, few) refl,
      pushed-Untouched,
      inl (pushed-PutAside (inl (ground arith))),
    )
    | inr many ↦ elim (Bool-cases (any_reading c.threads r.counters reader)) [
      | inl busy ↦ (
        push_retired r old,
        rw (pushed_length, many, busy) refl,
        pushed-Untouched,
        inl (pushed-PutAside (inr (any_reading-found c.threads r.counters reader busy))),
      )
      | inr clear ↦
          let (h, freed) = free_all_total r.heap r.finished owned in
          let (same, done_with) = recycled-Recycled h freed (ground arith) (λ i lt at.
            ground (arith, clear, any_reading-hit c.threads r.counters reader i lt at)) in
          (recycled h, rw (pushed_length, many, clear, freed) refl, same, inr done_with)
    ]
  ]

  -- Where no address stands in the pool more often than there is an object at it, the updater's own
  -- steps in `retire` come to its end, in the state that the function `retire` returns: the old object
  -- is in the list of the current epoch; and either fewer objects than hardware threads are there, or
  -- some thread reads in the previous epoch, and nothing else has changed, or neither is so, what was
  -- in the pool is deleted and nothing else, the objects of the previous epoch are the pool, its list
  -- is empty, and the epoch is the other one.
  pub retire_steps :
      (fresh fin cnt : ℕ)
      → ((p : ℕ) → count p r.finished ≤ allocated (r.heap p))
      → (k : Rcu T) × Alone c fresh r (retiring old fin cnt) (done (k, finishing fin cnt))
        × (retire c r old ≡ some k)
        × Untouched k
        × (PutAside k ⊎ Recycled k)
  retire_steps fresh fin cnt owned =
      let (k, e, same, what) = retire_lem owned in
      (
        k,
        subst
            (λ o.
              Alone c fresh r (retiring old fin cnt) (or_fault (λ r'. (r', finishing fin cnt)) o))
            e (retire-Alone c fresh fin cnt r old),
        e,
        same,
        what,
      )
