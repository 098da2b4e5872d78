-- ===== src/Numa/Plain/Total.antt =====
-- A call of `update` from start to end, and the object's life, on a machine without NUMA.

use writeboost_rcu.Common.{
  if◌then◌else◌, ℕ, suc, ◌+◌, ◌*◌, ◌%◌, ◌^◌, ◌≤◌, ◌<◌, ◌≡◌, ◌≢◌, refl, sym, ap, ◌∙◌, false, none,
  some, List, length, ◌==◌, arith,
}
use writeboost_rcu.Heap.{allocated}
use writeboost_rcu.Heap.Free.{allocated-zero}
use writeboost_rcu.Rcu.{Config}
use writeboost_rcu.Rcu.Places.{destroy-places}
use writeboost_rcu.Numa.{Cell, NumaRcu, construct, destroy}
use writeboost_rcu.Numa.Updates.{serve, enqueue, update_with_others}
use writeboost_rcu.Numa.Batches.{apply_queue, invoke_lem}
use writeboost_rcu.Numa.Plain.Memory.{contents}
use writeboost_rcu.Numa.Plain.{plain, destroy-plain}
use writeboost_rcu.Numa.Plain.Quiet.{copy_lem, map-some}
use writeboost_rcu.Numa.Plain.Flush.{invoke-SameObjects}
use writeboost_rcu.Numa.Plain.Loop.{AtRest, object_at, loop_lem}

module _ {T : Type 0} where
  pub construct-AtRest :
      (max : ℕ) (alloc : ℕ → ℕ) (bytes : ℕ → T) (p : ℕ) (v : T)
      → AtRest (construct false max alloc bytes p v) v
  unfolding construct
  construct-AtRest max alloc bytes p v =
      ((refl, refl, λ q. ground arith), ground arith, λ q. ground arith, refl, refl)

  destroy-AtRest :
      (r : NumaRcu T) (v : T)
      → AtRest r v
      → (h : ℕ → Cell T) × (destroy r ≡ some h) × ((p : ℕ) → contents h p ≡ none)
  destroy-AtRest r v (quiet, at, own, cnt, queue) =
      let (h', d, gone) = destroy-places (plain r) (λ p. omega (arith, own p)) in
      let (h, got, same) = map-some contents (destroy r) (destroy-plain r quiet.0 quiet.2 ∙ d) in
      (h, got, λ p. ap (λ (z : ℕ → _). z p) same ∙ gone p)

  serves :
      (c : Config) (r : NumaRcu T) (node fuel : ℕ) (alloc : ℕ → ℕ) (f : T → T)
      (arriving : List (T → T))
      → r.update_cnt ≡ 0
      → update_with_others c node alloc fuel f arriving r ≡ serve c node alloc fuel f arriving r
  unfolding update_with_others
  serves c r node fuel alloc f arriving cnt =
      ap (λ (n : ℕ). if n == 0 then serve c node alloc fuel f arriving r else enqueue c f r) cnt

  update-AtRest :
      (c : Config) (r : NumaRcu T) (node fuel : ℕ) (alloc : ℕ → ℕ) (f : T → T)
      (arriving : List (T → T)) {v : T}
      → AtRest r v
      → 0 < c.flushing_threshold
      → c.flushing_threshold < 2 ^ 64
      → length arriving + 1 < 2 ^ 64
      → length arriving ≤ suc fuel * c.flushing_threshold
      → ((n : ℕ) → n ≤ suc fuel → contents r.heap (alloc n) ≡ none)
      → ((m n : ℕ) → m < n → alloc m ≢ alloc n)
      → (k : NumaRcu T) × (update_with_others c node alloc (suc fuel) f arriving r ≡ some k)
        × AtRest k (apply_queue arriving (f v))
  unfolding serve
  update-AtRest c r node fuel alloc f arriving {v} (quiet, at, own, cnt, queue) space small fits
        enough new apart =
      let (copied, r', got, quiet', (at', own', cnt', queue', none')) =
        copy_lem r node (alloc (suc fuel)) {v = v} quiet own (new (suc fuel) (omega arith)) at in
      let (h, run, at'') = invoke_lem c copied 0 r'.heap v f (object_at (r'.heap copied) at') in
      let (solid, same) = invoke-SameObjects r'.heap copied f {h' = h} quiet'.2 run in
      let count : (1 + length arriving) % 2 ^ 64 ≡ 1 + length arriving = omega arith in
      let (k, go, done) =
        loop_lem c small space node alloc apart fuel
          (record r' {
            heap = h;
            update_cnt = (1 + length arriving) % 2 ^ 64;
            update_queue = arriving;
          })
          copied 1 (f v) (quiet'.0, quiet'.1, solid) (λ p. own' p ∙ sym (same p)) at'' (omega arith)
          (omega arith) enough
          (λ n below. allocated-zero (contents h (alloc n)) (
            same (alloc n)
            ∙ ap allocated
                (none' (alloc n) (apart n (suc fuel) (omega arith)) (new n (omega arith))))) in
      (k, serves c r node (suc fuel) alloc f arriving cnt ∙ rw (got, run) go, done)

  -- On a machine without NUMA, with no update under way, a flushing threshold between 1 and 2^64,
  -- fewer than 2^64 calls, fuel for as many publications as the arriving calls need, and new memory
  -- from each allocation: a call of `update` that others join returns. It was performed first and then
  -- the others in order, `m_ptr` leads to the result, no call is left, and so the next call of `update`
  -- finds what this one found; the destructor deletes each object once and leaves none.
  pub update_total :
      (c : Config) (r : NumaRcu T) (node fuel : ℕ) (alloc : ℕ → ℕ) (f : T → T)
      (arriving : List (T → T)) {v : T}
      → AtRest r v
      → 0 < c.flushing_threshold
      → c.flushing_threshold < 2 ^ 64
      → length arriving + 1 < 2 ^ 64
      → length arriving ≤ suc fuel * c.flushing_threshold
      → ((n : ℕ) → n ≤ suc fuel → contents r.heap (alloc n) ≡ none)
      → ((m n : ℕ) → m < n → alloc m ≢ alloc n)
      → (k : NumaRcu T) × (h : ℕ → Cell T) × (update_with_others c node alloc
            (suc fuel)
            f
            arriving
            r
          ≡ some k)
        × AtRest k (apply_queue arriving (f v))
        × (destroy k ≡ some h)
        × ((p : ℕ) → contents h p ≡ none)
  update_total c r node fuel alloc f arriving {v} rest space small fits enough new apart =
      let (k, run, done) =
        update-AtRest c r node fuel alloc f arriving {v = v} rest space small fits enough new
          apart in
      let (h, freed, gone) = destroy-AtRest k (apply_queue arriving (f v)) done in
      (k, h, run, done, freed, gone)
