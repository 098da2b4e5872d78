-- ===== src/System/Lifetime.antt =====
-- `~rcu_protected()`: the destructor gives back every object once.
use writeboost_rcu.Common.{ℕ, ◌≤◌, ◌<◌, ◌^◌, ◌≡◌, none, some, length, total_mono, arith}
use writeboost_rcu.Heap.{Heap, allocated}
use writeboost_rcu.Rcu.{Config, destroy}
use writeboost_rcu.Threads.{WritePc}
use writeboost_rcu.System.{System, History, Reach}
use writeboost_rcu.System.Registry.{is_updater, Registry}
use writeboost_rcu.Rcu.Places.{places, destroy-places}
use writeboost_rcu.System.Ownership.{private, outgoing}
use writeboost_rcu.System.Memory.{Memory}
use writeboost_rcu.System.Invariant.{Reach-Inv}

module _ {T : Type 0} where
  private-le : (p : ℕ) (pc : WritePc T) → private p pc ≤ is_updater pc
  private-le p pc = ground arith

  outgoing-le : (p : ℕ) (pc : WritePc T) → outgoing p pc ≤ is_updater pc
  outgoing-le p pc = ground arith

  -- With no update under way the object itself holds every address that is in use.
  settled :
      {c : Config} {h : History T} {s : System T} (p : ℕ)
      → Registry c h s
      → Memory c s
      → s.update_cnt ≡ 0
      → places s.rcu p ≡ allocated (s.heap p)
  settled {c} {s = s} p reg m z = ground (
    arith,
    reg.count.single,
    m.owned p,
    total_mono (private p) is_updater c.threads s.writes (private-le p),
    total_mono (outgoing p) is_updater c.threads s.writes (outgoing-le p),
  )

  -- In a state that is reached by fewer than 2^64 calls of `update`, all of which are done, the
  -- destructor deletes no object twice and leaves none behind.
  pub destroy_total :
      {c : Config} {p₀ : ℕ} {v : T} {h : History T} {s : System T}
      → Reach c p₀ v h s
      → length h.calls < 2 ^ 64
      → s.update_cnt ≡ 0
      → (heap : Heap T) × (destroy s.rcu ≡ some heap) × ((p : ℕ) → heap p ≡ none)
  destroy_total {s = s} r fits z =
      let inv = Reach-Inv r fits in destroy-places s.rcu (λ p. settled p inv.registry inv.memory z)
