-- ===== src/System/Invariant.antt =====
-- The invariants of an `rcu_protected` object together, in every state that threads can reach.
use writeboost_rcu.Common.{ℕ, ◌≤◌, ◌<◌, ◌^◌, ◌≡◌, sym, subst, length, total, le-total, arith}
use writeboost_rcu.Rcu.{Config, Rcu}
use writeboost_rcu.Threads.{done, WritePc, idle, enqueueing, write_step}
use writeboost_rcu.System.{
  System, History, Action, step, Allocates, record_step, Reach, begin, later,
}
use writeboost_rcu.System.Moves.{Stepped, reads, calls, writes, step-Stepped}
use writeboost_rcu.System.Registry.{
  weight, is_updater, Registry, step-Registry, start-Registry, calls-le,
}
use writeboost_rcu.System.Memory.{Memory, step-Memory, start-Memory}
use writeboost_rcu.System.Values.{Values, start-Values, write-Values, call-Values, read-Values}

module _ {T : Type 0} where
  write-weight :
      (c : Config) (fresh : ℕ) (r : Rcu T) {k : Rcu T × WritePc T} (pc : WritePc T)
      → write_step c fresh r pc ≡ done k
      → is_updater pc ≤ weight pc
      → 0 < weight pc
  unfolding write_step
  write-weight c fresh r idle e g = ground arith
  write-weight c fresh r (enqueueing f) e g = omega arith
  write-weight c fresh r _ e g = omega arith

  -- While `m_updateCnt` is 0 nobody is in `update`.
  pub write_pos :
      {c : Config} {h : History T} {s : System T} {k : Rcu T × WritePc T} (i fresh : ℕ)
      → i < c.threads
      → write_step c fresh s.rcu (s.writes i) ≡ done k
      → Registry c h s
      → 0 < s.update_cnt
  write_pos {c} {s = s} i fresh lt e inv = omega (
    arith,
    write-weight c fresh s.rcu (s.writes i) e (inv.progressed i),
    le-total weight c.threads s.writes i lt,
    inv.count.counted,
  )

  pub record Inv (c : Config) (v : T) (h : History T) (s : System T) : Type 0 where
    pub registry : Registry c h s
    pub memory : Memory c s
    pub values : Values v c h s

  pub one_updater :
      {c : Config} {h : History T} {s : System T}
      → Registry c h s
      → total is_updater c.threads s.writes ≤ 1
  one_updater inv = ground (arith, inv.count.single)

  Stepped-Values :
      {c : Config} {v : T} {h : History T} {s s' : System T} {a : Action T}
      → Stepped c s a s'
      → Allocates s a
      → length (record_step s a h).calls < 2 ^ 64
      → Inv c v h s
      → Values v c (record_step s a h) s'
  Stepped-Values {v} {s} (reads i lt) ok fits inv =
      read-Values v inv.values (one_updater inv.registry) i (s.reads i)
  Stepped-Values {v} (calls i f lt e) ok fits inv =
      call-Values v inv.values (one_updater inv.registry) i f lt e (omega (arith, inv.registry.few))
  Stepped-Values {v} {s} (writes i fresh lt e) ok fits inv =
      write-Values v inv.values (one_updater inv.registry) i fresh lt
        (write_pos i fresh lt e inv.registry) ok (inv.memory.owned s.ptr) e

  pub step-Inv :
      {c : Config} {v : T} {h h' : History T} {s s' : System T} (a : Action T)
      → Allocates s a
      → step c s a ≡ done s'
      → h' ≡ record_step s a h
      → length h'.calls < 2 ^ 64
      → Inv c v h s
      → Inv c v h' s'
  step-Inv {c} {v} {h} {s = s} {s' = s'} a ok e q fits inv = record {
    registry = step-Registry a e q fits inv.registry;
    memory = step-Memory a ok e (one_updater inv.registry) inv.memory;
    values =
        subst (λ k. Values v c k s') (sym q)
          (Stepped-Values (step-Stepped c s a e) ok (subst (λ k. length k.calls < 2 ^ 64) q fits)
            inv);
  }

  pub Reach-Inv :
      {c : Config} {p : ℕ} {v : T} {h : History T} {s : System T}
      → Reach c p v h s
      → length h.calls < 2 ^ 64
      → Inv c v h s
  Reach-Inv {c} {p} {v} begin fits = record {
    registry = start-Registry c p v;
    memory = start-Memory c p v;
    values = start-Values v c p;
  }
  Reach-Inv (later {h = h} {s = s} r a ok e q) fits =
      step-Inv a ok e q fits (Reach-Inv r (omega (arith, calls-le h s a q)))
