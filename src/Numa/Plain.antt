-- ===== src/Numa/Plain.antt =====
-- include/numa_temp/rcu_numa.hpp beside include/wbrcu/rcu_protected.hpp: the class without NUMA.
pub mod Memory
pub mod Quiet
pub mod Flush
pub mod Loop
pub mod Total
use mathlib.Core.Option
use mathlib.Core.Path.{fun_ext}
use writeboost_rcu.Common.{
  bit, ℕ, ◌+◌, ◌/◌, ◌≡◌, ◌≢◌, refl, ap, false, Option, none, some, Option-cases, inl, inr, List, [],
  ◌∷◌, update, ℕ_discrete, arith, true, Bool, if◌then◌else◌, ◌∙◌, ◌>>=◌,
}
use writeboost_rcu.Readers.{increment}
use writeboost_rcu.Heap.{Heap, modify, free, free_all}
use writeboost_rcu.Rcu.{Config, Rcu, rcu_read_lock, exchange}
use writeboost_rcu.Rcu as Wbrcu
use writeboost_rcu.Numa.{
  NodeAnswer, get_current_numa_node, construct, Cell, NumaRcu, absent, raw, object, get_copy,
  retire, destroy, invoke, get_ptr, rcu_read_unlock, publish, publish_nodes,
}
use writeboost_rcu.Numa.Plain.Memory.{
  contents, NoRaw, contents-update, numa_free-contents, numa_free-NoRaw, numa_free_all-contents,
  numa_free_all-NoRaw, bind-contents, invoke-contents,
}

module _ {T : Type 0} where
  -- The members that `rcu_protected` has.
  abbrev pub plain : NumaRcu T → Rcu T
  plain r = record {
    heap = contents r.heap;
    ptr = r.ptr;
    epoch = r.epoch;
    counters = r.counters;
    retire_lists = r.retire_lists;
    finished = r.finished;
    update_cnt = r.update_cnt;
    update_queue = r.update_queue;
  }

  pub get_copy-plain :
      (r : NumaRcu T) (node fresh : ℕ) (cell : Cell T) (pool : List ℕ)
      → r.is_numa_available ≡ false
      → NoRaw r.heap
      → r.heap r.ptr ≡ cell
      → r.finished ≡ pool
      → Option.map (λ (p, k). (p, plain k)) (get_copy r node fresh) ≡ Wbrcu.get_copy (plain r) fresh
  unfolding get_copy Wbrcu.get_copy
  get_copy-plain r node fresh absent pool numa solid e q = ground arith
  get_copy-plain r node fresh (raw bytes) pool numa solid e q = absurd (ground (arith, solid r.ptr))
  get_copy-plain r node fresh (object v) [] numa solid e q =
      ground (arith, contents-update r.heap fresh (object v))
  get_copy-plain r node fresh (object v) (p ∷ rest) numa solid e q =
      ground (arith, contents-update r.heap p (object v), solid p)

  retire-plain :
      (c : Config) (r : NumaRcu T) (p node : ℕ)
      → r.is_numa_available ≡ false
      → r.max_node ≡ 0
      → NoRaw r.heap
      → Option.map plain (retire c r p node) ≡ Wbrcu.retire c (plain r) p
  unfolding retire Wbrcu.retire
  retire-plain c r p node numa one solid =
      let threshold : c.hardware_concurrency / (r.max_node + 1) ≡ c.hardware_concurrency =
        rw one (omega arith) in
      let freed = numa_free_all-contents r.heap r.finished solid in ground (arith, threshold, freed)

  pub destroy-plain :
      (r : NumaRcu T)
      → r.is_numa_available ≡ false
      → NoRaw r.heap
      → Option.map contents (destroy r) ≡ Wbrcu.destroy (plain r)
  unfolding destroy Wbrcu.destroy
  destroy-plain r numa solid = rw numa (
      bind-contents _ _ _ _ (numa_free-contents r.heap r.ptr solid) (λ h d.
        let solid₁ = numa_free-NoRaw r.heap r.ptr solid d in
        bind-contents _ _ _ _ (numa_free_all-contents h (r.retire_lists false) solid₁) (λ h₂ d₂.
          let solid₂ = numa_free_all-NoRaw h (r.retire_lists false) solid₁ d₂ in
          bind-contents _ _ _ _ (numa_free_all-contents h₂ (r.retire_lists true) solid₂) (λ h₃ d₃.
            numa_free_all-contents h₃ r.finished
              (numa_free_all-NoRaw h₂ (r.retire_lists true) solid₂ d₃)))))

  -- A publication is an exchange of `m_ptr` and `retire`.
  pub publish-retire :
      (c : Config) (copied : ℕ) (r : NumaRcu T)
      → r.is_numa_available ≡ false
      → publish c copied r ≡ retire c (record r { ptr = copied }) r.ptr 0
  unfolding publish
  publish-retire c copied r numa =
      ap
        (λ (b : Bool).
          if b
          then publish_nodes c copied (r.max_node + 1) 0 r
          else retire c (record r { ptr = copied }) r.ptr 0)
        numa

  pub publish-plain :
      (c : Config) (copied : ℕ) (r : NumaRcu T)
      → r.is_numa_available ≡ false
      → r.max_node ≡ 0
      → NoRaw r.heap
      → Option.map plain (publish c copied r)
        ≡ Wbrcu.retire c (exchange (plain r) copied).1 (exchange (plain r) copied).0
  unfolding exchange
  publish-plain c copied r numa one solid =
      ap (Option.map plain) (publish-retire c copied r numa)
      ∙ retire-plain c (record r { ptr = copied }) r.ptr 0 numa one solid

  pub construct-plain :
      (max : ℕ) (alloc : ℕ → ℕ) (bytes : ℕ → T) (p : ℕ) (v : T)
      → plain (construct false max alloc bytes p v) ≡ Wbrcu.construct p v
  unfolding construct Wbrcu.construct
  construct-plain max alloc bytes p v =
      ap
        (λ (h : Heap T). record {
          heap = h;
          ptr = p;
          epoch = false;
          counters = λ _. 0;
          retire_lists = λ _. [];
          finished = [];
          update_cnt = 0;
          update_queue = [];
        })
        (contents-update (λ _. absent) p (object v))

  -- On a machine without NUMA these operations do what those of `wbrcu::rcu_protected` do: the
  -- constructor, and, where no memory without an object was handed out, `get_ptr`, as far as its call
  -- of `get_current_numa_node` returns, giving the pointer back, `get_copy`, a callback, a publication
  -- with `retire`, and the destructor, on every branch and also where they are undefined.
  pub without_numa :
      (c : Config) (r : NumaRcu T) (thread : ℕ) (answer : NodeAnswer) {node : ℕ} (fresh p max : ℕ)
      (f : T → T) (alloc : ℕ → ℕ) (bytes : ℕ → T) (v : T)
      → r.is_numa_available ≡ false
      → r.max_node ≡ 0
      → NoRaw r.heap
      → get_current_numa_node answer ≡ some node
      → (plain (construct false max alloc bytes p v) ≡ Wbrcu.construct p v)
        × ((k : NumaRcu T) × (get_ptr r thread answer ≡ some (r.ptr, k))
            × (plain k ≡ rcu_read_lock (plain r) thread r.epoch))
        × (plain (rcu_read_unlock r thread) ≡ Wbrcu.rcu_read_unlock (plain r) thread)
        × (Option.map (λ (copied, k). (copied, plain k)) (get_copy r node fresh)
            ≡ Wbrcu.get_copy (plain r) fresh)
        × (Option.map contents (invoke r.heap p f) ≡ modify (plain r).heap p f)
        × (Option.map plain (publish c p r)
            ≡ Wbrcu.retire c (exchange (plain r) p).1 (exchange (plain r) p).0)
        × (Option.map contents (destroy r) ≡ Wbrcu.destroy (plain r))
  unfolding get_ptr rcu_read_lock rcu_read_unlock Wbrcu.rcu_read_unlock
  without_numa c r thread answer {node} fresh p max f alloc bytes v numa one solid got = (
    construct-plain max alloc bytes p v,
    (record r { counters = increment r.counters thread (bit r.epoch) }, rw (got, numa) refl, refl),
    refl,
    get_copy-plain r node fresh (r.heap r.ptr) r.finished numa solid refl refl,
    invoke-contents r.heap p f (r.heap p) solid refl,
    publish-plain c p r numa one solid,
    destroy-plain r numa solid,
  )
