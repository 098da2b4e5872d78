-- ===== src/Numa/Interleaved/Plain.antt =====
-- Without NUMA the threads do what those of writeboost_rcu.System do.
use mathlib.Core.Option
use writeboost_rcu.Common.{
  Option-cases, ℕ, ◌+◌, ◌/◌, ◌≡◌, refl, ap, sym, subst, ◌∙◌, Bool-cases, inl, inr, false, not,
  Option, none, some, List, [], ◌∷◌, if◌then◌else◌, ltb, arith,
}
use writeboost_rcu.Rcu.{Config, Rcu, set_list, reclaim}
use writeboost_rcu.Threads.{
  map_outcome, Outcome, done, blocked, fault, or_fault, ReadPc, WritePc, read_step, call_step,
  perform, write_step,
}
use writeboost_rcu.Threads as Wbrcu
use writeboost_rcu.Numa as Numa
use writeboost_rcu.Numa.{NumaRcu, invoke, numa_free_all}
use writeboost_rcu.Numa.Threads.{
  NumaReadPc, outside, locking, locked, reading, NumaWritePc, idle, enqueueing, registered, copied,
  starting, working, publishing, retiring, scanning, reclaiming, flipping, finishing, renewing,
  numa_read_step, numa_call_step, numa_write_step, numa_perform, push_on, few_on, after_retire,
  reclaim_on,
}
use writeboost_rcu.Numa.Plain.Memory.{NoRaw, contents, numa_free_all-contents, invoke-contents}
use writeboost_rcu.Numa.Plain.{plain, get_copy-plain}
use writeboost_rcu.Numa.Plain.Quiet.{Quiet}

-- The place in `rcu_protected` that a place without NUMA is.
abbrev pub plain_read : NumaReadPc → ReadPc
plain_read outside = Wbrcu.outside
plain_read (locking node e) = Wbrcu.locking e
plain_read (locked node) = Wbrcu.locked
plain_read (reading p) = Wbrcu.reading p

-- Two accesses to memory that agree have outcomes that agree.
or_fault-map :
    {A A' B B' : Type 0} (g : A → A') (k : B → B') (f : A → B) (f' : A' → B') (o : Option A)
    {o' : Option A'}
    → Option.map g o ≡ o'
    → ((a : A) → k (f a) ≡ f' (g a))
    → map_outcome k (or_fault f o) ≡ or_fault f' o'
or_fault-map g k f f' none e same = ap (or_fault f') e
or_fault-map g k f f' (some a) e same = ap done (same a) ∙ ap (or_fault f') e

module _ {T : Type 0} where
  abbrev pub plain_write : NumaWritePc T → WritePc T
  plain_write idle = Wbrcu.idle
  plain_write (enqueueing f) = Wbrcu.enqueueing f
  plain_write (registered f) = Wbrcu.registered f
  plain_write (copied f p) = Wbrcu.copied f p
  plain_write (starting p) = Wbrcu.starting p
  plain_write (working p fin cnt unflushed) = Wbrcu.working p fin cnt unflushed
  plain_write (publishing i p fin cnt) = Wbrcu.publishing p fin cnt
  plain_write (retiring i p old fin cnt) = Wbrcu.retiring old fin cnt
  plain_write (scanning i p k fin cnt) = Wbrcu.scanning k fin cnt
  plain_write (reclaiming i p fin cnt) = Wbrcu.reclaiming fin cnt
  plain_write (flipping i p fin cnt) = Wbrcu.flipping fin cnt
  plain_write (finishing fin cnt) = Wbrcu.finishing fin cnt
  plain_write (renewing fin cnt) = Wbrcu.renewing fin cnt

  abbrev pub plain_next : NumaRcu T × NumaWritePc T → Rcu T × WritePc T
  plain_next (r, pc) = (plain r, plain_write pc)

  pub numa_read_step-plain :
      (i node : ℕ) (r : NumaRcu T) (pc : NumaReadPc)
      → Quiet r
      → (plain (numa_read_step i node r pc).0, plain_read (numa_read_step i node r pc).1)
        ≡ read_step i (plain r) (plain_read pc)
  unfolding numa_read_step read_step
  numa_read_step-plain i node r outside quiet = refl
  numa_read_step-plain i node r (locking on e) quiet = refl
  numa_read_step-plain i node r (locked on) (numa, one, solid) = rw numa
  numa_read_step-plain i node r (reading p) quiet = refl

  pub numa_call_step-plain :
      (f : T → T) (r : NumaRcu T) → plain_next (numa_call_step f r) ≡ call_step f (plain r)
  unfolding numa_call_step call_step
  numa_call_step-plain f r = ground arith

  -- The state, with what is known of it written in.
  alone : NumaRcu T → NumaRcu T
  alone r = record r { is_numa_available = false; max_node = 0 }

  alone_lem : (r : NumaRcu T) → Quiet r → alone r ≡ r
  unfolding alone
  alone_lem r (numa, one, solid) = ground arith

  reclaim_on-alone :
      (r : NumaRcu T) (i : ℕ)
      → Option.map plain (reclaim_on (alone r) i)
        ≡ Option.map
            (λ h. record (plain r) {
              heap = h;
              retire_lists = set_list r.retire_lists (not r.epoch) [];
              finished = r.retire_lists (not r.epoch);
            })
            (Option.map contents (numa_free_all r.heap r.finished))
  unfolding reclaim_on alone
  reclaim_on-alone r i = elim (Option-cases (numa_free_all r.heap r.finished)) [
    | inl d ↦ rw d
    | inr (h, d) ↦ rw d
  ]

  reclaim_on-plain :
      (r : NumaRcu T) (i : ℕ) → Quiet r → Option.map plain (reclaim_on r i) ≡ reclaim (plain r)
  unfolding reclaim
  reclaim_on-plain r i quiet =
      ap (λ z. Option.map plain (reclaim_on z i)) (sym (alone_lem r quiet))
      ∙ reclaim_on-alone r i
      ∙ ap (Option.map _) (numa_free_all-contents r.heap r.finished quiet.2)

  -- The first part of `retire`.
  retire_on-alone :
      (c : Config) (r : NumaRcu T) (i p old fin cnt : ℕ)
      → map_outcome plain_next (
          done (
            push_on (alone r) i old,
            if few_on c (push_on (alone r) i old) i
                then after_retire (push_on (alone r) i old) i p fin cnt
                else scanning i p 0 fin cnt,
          ))
        ≡ write_step c 0 (plain r) (Wbrcu.retiring old fin cnt)
  unfolding push_on few_on after_retire alone write_step
  retire_on-alone c r i p old fin cnt =
      let whole : c.hardware_concurrency / (0 + 1) ≡ c.hardware_concurrency = omega arith in
      ground (arith, whole)

  perform-plain :
      (c : Config) (r : NumaRcu T) (p fin cnt unflushed : ℕ) (queue : List (T → T))
      → NoRaw r.heap
      → map_outcome plain_next (numa_perform c r p fin cnt unflushed queue)
        ≡ perform c (plain r) p fin cnt unflushed queue
  unfolding numa_perform perform
  perform-plain c r p fin cnt unflushed [] solid = refl
  perform-plain c r p fin cnt unflushed (f ∷ rest) solid =
      or_fault-map contents plain_next _ _ (invoke r.heap p f)
        (invoke-contents r.heap p f (r.heap p) solid refl) (λ h. ground arith)

  pub numa_write_step-plain :
      (c : Config) (node fresh : ℕ) (r : NumaRcu T) (pc : NumaWritePc T)
      → Quiet r
      → map_outcome plain_next (numa_write_step c node fresh r pc)
        ≡ write_step c fresh (plain r) (plain_write pc)
  unfolding numa_write_step write_step
  numa_write_step-plain c node fresh r idle quiet = refl
  numa_write_step-plain c node fresh r (enqueueing f) quiet = ground arith
  numa_write_step-plain c node fresh r (registered f) (numa, one, solid) =
      or_fault-map (λ (p, k). (p, plain k)) plain_next _ _ (Numa.get_copy r node fresh)
        (get_copy-plain r node fresh (r.heap r.ptr) r.finished numa solid refl refl) (λ a. refl)
  numa_write_step-plain c node fresh r (copied f p) quiet =
      or_fault-map contents plain_next _ _ (invoke r.heap p f)
        (invoke-contents r.heap p f (r.heap p) quiet.2 refl) (λ h. refl)
  numa_write_step-plain c node fresh r (starting p) quiet = refl
  numa_write_step-plain c node fresh r (working p fin cnt unflushed) quiet =
      elim (Bool-cases (ltb fin cnt)) [
        | inl more ↦ rw more (perform-plain c r p fin cnt unflushed r.update_queue quiet.2)
        | inr all ↦ ground arith
      ]
  numa_write_step-plain c node fresh r (publishing i p fin cnt) (numa, one, solid) = rw numa
  numa_write_step-plain c node fresh r (retiring i p old fin cnt) quiet =
      subst
        (λ z.
          map_outcome plain_next (numa_write_step c node fresh z (retiring i p old fin cnt))
          ≡ write_step c fresh (plain r) (Wbrcu.retiring old fin cnt))
        (alone_lem r quiet) (retire_on-alone c r i p old fin cnt)
  numa_write_step-plain c node fresh r (scanning i p k fin cnt) (numa, one, solid) = ground arith
  numa_write_step-plain c node fresh r (reclaiming i p fin cnt) quiet =
      or_fault-map plain plain_next _ _ (reclaim_on r i) (reclaim_on-plain r i quiet) (λ k. refl)
  numa_write_step-plain c node fresh r (flipping i p fin cnt) (numa, one, solid) = rw numa
  numa_write_step-plain c node fresh r (finishing fin cnt) quiet = ground arith
  numa_write_step-plain c node fresh r (renewing fin cnt) (numa, one, solid) =
      or_fault-map (λ (p, k). (p, plain k)) plain_next _ _ (Numa.get_copy r node fresh)
        (get_copy-plain r node fresh (r.heap r.ptr) r.finished numa solid refl refl) (λ a. refl)
