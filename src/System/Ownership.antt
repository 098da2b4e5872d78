-- ===== src/System/Ownership.antt =====
-- Every object has one owner: `m_ptr`, the updater, a retire list or the object pool.
use writeboost_rcu.Common.{ℕ, ◌+◌, ◌≤◌, ◌<◌, ◌≡◌, none, ◌==◌, count, bit, arith}
use writeboost_rcu.Heap.{allocated}
use writeboost_rcu.Heap.Free.{free_all-count, free_all-keeps}
use writeboost_rcu.Rcu.{Config, Rcu}
use writeboost_rcu.Rcu.Places.{places}
use writeboost_rcu.Threads.{
  done, WritePc, idle, copied, starting, working, publishing, retiring, reclaiming, write_step,
}

module _ {T : Type 0} where
  -- 1 if the updater alone knows `p`: its copy, before the exchange.
  abbrev pub private : ℕ → WritePc T → ℕ
  private p (copied f q) = bit (p == q)
  private p (starting q) = bit (p == q)
  private p (working q fin cnt unflushed) = bit (p == q)
  private p (publishing q fin cnt) = bit (p == q)
  private p _ = 0

  -- 1 if `p` is on its way from `m_ptr` to a retire list.
  abbrev pub outgoing : ℕ → WritePc T → ℕ
  outgoing p (retiring old fin cnt) = bit (p == old)
  outgoing p _ = 0

  -- `copies` and `leaving` are the sums of `private p` and `outgoing p` over the threads.
  abbrev pub Owned : Rcu T → ℕ → ℕ → ℕ → Type 0
  Owned r copies leaving p = places r p + copies + leaving ≡ allocated (r.heap p)

  module _ (c : Config) (fresh : ℕ) (r : Rcu T) {r' : Rcu T} {pc' : WritePc T}
      (p y y' z z' : ℕ) where
    pub write-Owned :
        (pc : WritePc T)
        → write_step c fresh r pc ≡ done (r', pc')
        → r.heap fresh ≡ none
        → y' + private p pc ≡ y + private p pc'
        → z' + outgoing p pc ≡ z + outgoing p pc'
        → private p pc ≤ y
        → outgoing p pc ≤ z
        → Owned r y z p
        → Owned r' y' z' p
    unfolding write_step
    write-Owned idle e n a b f g o = ground arith
    write-Owned (reclaiming fin cnt) e n a b f g o =
        ground (arith, free_all-count r.heap r.finished p {h' = r'.heap})
    write-Owned _ e n a b f g o = ground arith

  -- A step leaves alone what is neither the updater's own nor in the object pool.
  pub write-keeps :
      (c : Config) (fresh : ℕ) (r : Rcu T) {r' : Rcu T} {pc' : WritePc T} (p : ℕ) (pc : WritePc T)
      → write_step c fresh r pc ≡ done (r', pc')
      → r.heap fresh ≡ none
      → private p pc ≡ 0
      → count p r.finished ≡ 0
      → 0 < allocated (r.heap p)
      → r'.heap p ≡ r.heap p
  unfolding write_step
  write-keeps c fresh r p idle e n a f o = ground arith
  write-keeps c fresh r {r'} p (reclaiming fin cnt) e n a f o =
      ground (arith, free_all-keeps r.heap r.finished p {h' = r'.heap})
  write-keeps c fresh r p _ e n a f o = ground arith
