-- ===== src/System/Delivery.antt =====
-- What `rcu_protected` promises about updates: each is performed once, in turn, and readers see the
-- result.
use writeboost_rcu.Common.{
  apply_all, ℕ, ◌+◌, ◌≤◌, ◌<◌, ◌^◌, ◌≡◌, refl, sym, subst, some, [], length, sum_by, total,
  total_zero, le-total, arith,
}
use writeboost_rcu.Rcu.{Config}
use writeboost_rcu.Threads.{WritePc, idle, enqueueing}
use writeboost_rcu.System.{System, History, Reach, begin, later}
use writeboost_rcu.System.Registry.{weight, is_updater, calls-le}
use writeboost_rcu.System.Accounts.{pending, Accounted, start-Accounted, step-Accounted}
use writeboost_rcu.System.Invariant.{Inv, Reach-Inv}
use writeboost_rcu.System.Order.{idle_queue, Ordered, start-Ordered, step-Ordered}

module _ {T : Type 0} where
  -- In every reachable state, for every way to weigh updates: the updates that were asked for weigh
  -- as much as those that were performed, those in the queue and those that threads are about to
  -- queue or to perform together. So no update is lost, made up or performed twice.
  pub Reach-Accounted :
      {c : Config} {p₀ : ℕ} {v : T} {h : History T} {s : System T} (w : (T → T) → ℕ)
      → Reach c p₀ v h s
      → sum_by w h.calls
        ≡ sum_by w h.performed + sum_by w s.update_queue + total (pending w) c.threads s.writes
  Reach-Accounted {c} {p₀} {v} w begin = start-Accounted w c p₀ v
  Reach-Accounted {c} w (later {h = h} {s = s} {s' = s'} r a ok e q) =
      subst (λ k. Accounted w c k s') (sym q) (step-Accounted w c h s a e (Reach-Accounted w r))

  -- In every state that is reached by fewer than 2^64 calls of `update`, `m_ptr` leads to the initial
  -- object after the published updates in their order.
  pub published_value :
      {c : Config} {p₀ : ℕ} {v : T} {h : History T} {s : System T}
      → Reach c p₀ v h s
      → length h.calls < 2 ^ 64
      → s.heap s.ptr ≡ some (apply_all h.published v)
  published_value r fits = (Reach-Inv r fits).values.visible

  pub Reach-Ordered :
      {c : Config} {p₀ : ℕ} {v : T} {h : History T} {s : System T}
      → Reach c p₀ v h s
      → length h.calls < 2 ^ 64
      → Ordered c h s
  Reach-Ordered {c} {p₀} {v} begin fits = start-Ordered c p₀ v
  Reach-Ordered (later {h = h} {s = s} r a ok e q) fits =
      let few : length h.calls < 2 ^ 64 = omega (arith, calls-le h s a q) in
      step-Ordered a e q fits (Reach-Inv r few).registry (Reach-Ordered r few)

  pending-idle :
      (w : (T → T) → ℕ) (pc : WritePc T)
      → weight pc ≡ 0
      → is_updater pc ≤ weight pc
      → pending w pc ≡ 0
  pending-idle w idle z g = refl
  pending-idle w (enqueueing f) z g = absurd (omega arith)
  pending-idle w _ z g = absurd (omega arith)

  -- When every call of `update` is done, and there were fewer than 2^64: the queue is empty, the
  -- updates were performed in the order in which they got their turn, all of them and each once, and
  -- `m_ptr` leads to the initial object after them.
  pub settled_value :
      {c : Config} {p₀ : ℕ} {v : T} {h : History T} {s : System T}
      → Reach c p₀ v h s
      → length h.calls < 2 ^ 64
      → s.update_cnt ≡ 0
      → (s.update_queue ≡ [])
        × (h.performed ≡ h.accepted)
        × ((w : (T → T) → ℕ) → sum_by w h.performed ≡ sum_by w h.calls)
        × (s.heap s.ptr ≡ some (apply_all h.performed v))
  settled_value {c} {v = v} {h = h} {s = s} r fits z = (
    empty,
    sym (rw empty at ((Reach-Ordered r fits).rest z)),
    λ w. ground (arith, Reach-Accounted w r, none_pending w, empty),
    rw (inv.values.quiet z) inv.values.visible,
  )
    where
      inv : Inv c v h s
      inv = Reach-Inv r fits

      empty : s.update_queue ≡ []
      empty = (idle_queue inv.registry z).0

      none_pending : (w : (T → T) → ℕ) → total (pending w) c.threads s.writes ≡ 0
      none_pending w = total_zero (pending w) c.threads s.writes λ i lt.
          pending-idle w (s.writes i)
            (omega (arith, le-total weight c.threads s.writes i lt, inv.registry.count.counted))
            (inv.registry.progressed i)
