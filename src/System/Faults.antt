-- ===== src/System/Faults.antt =====
-- No step of `update` uses or deletes an address that holds no object.
use writeboost_rcu.Common.{ℕ, ◌≤◌, ◌<◌, ◌≡◌, ◌≢◌, refl, some, List, [], ◌∷◌, count, arith}
use writeboost_rcu.Heap.{allocated}
use writeboost_rcu.Heap.Free.{allocated-some, free_all_total}
use writeboost_rcu.Rcu.{Config, Rcu, get_copy}
use writeboost_rcu.Threads.{
  fault, WritePc, registered, copied, working, reclaiming, renewing, write_step,
}
use writeboost_rcu.System.Ownership.{private, Owned}

module _ {T : Type 0} where
  get_copy-pool :
      (r : Rcu T) (fresh : ℕ) (pool : List ℕ)
      → r.finished ≡ pool
      → 0 < allocated (r.heap r.ptr)
      → ((p : ℕ) → count p r.finished ≤ allocated (r.heap p))
      → (k : ℕ × Rcu T) × (get_copy r fresh ≡ some k)
  unfolding get_copy
  get_copy-pool r fresh [] e live pooled =
      let (v, d) = allocated-some (r.heap r.ptr) live in rw (d, e, get_copy) (_, refl)
  get_copy-pool r fresh (q ∷ rest) e live pooled =
      let (v, d) = allocated-some (r.heap r.ptr) live in
      let (w, b) = allocated-some (r.heap q) (ground (arith, pooled q)) in
      rw (d, e, b, get_copy) (_, refl)

  module _ (c : Config) (fresh : ℕ) (r : Rcu T) (copies leaving : ℕ → ℕ) where
    pub write-ne-fault :
        (pc : WritePc T)
        → ((p : ℕ) → private p pc ≤ copies p)
        → ((p : ℕ) → Owned r (copies p) (leaving p) p)
        → write_step c fresh r pc ≢ fault
    unfolding write_step
    write-ne-fault (registered f) mine own =
        let (k, e) =
          get_copy-pool r fresh r.finished refl (ground (arith, own r.ptr))
            (λ p. omega (arith, own p)) in
        ground (arith, e)
    write-ne-fault (renewing fin cnt) mine own =
        let (k, e) =
          get_copy-pool r fresh r.finished refl (ground (arith, own r.ptr))
            (λ p. omega (arith, own p)) in
        ground (arith, e)
    write-ne-fault (copied f q) mine own = ground (arith, mine q, own q)
    write-ne-fault (working q fin cnt unflushed) mine own = ground (arith, mine q, own q)
    write-ne-fault (reclaiming fin cnt) mine own =
        let (h, e) = free_all_total r.heap r.finished (λ p. omega (arith, own p)) in
        ground (arith, e)
    write-ne-fault _ mine own = ground arith
