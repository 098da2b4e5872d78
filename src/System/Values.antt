-- ===== src/System/Values.antt =====
-- What the objects hold: `m_ptr` leads to the published updates in order, the updater's copy to all
-- that were performed.
use writeboost_rcu.Common.{
  apply_all, ℕ, ◌^◌, ◌+◌, ◌≤◌, ◌<◌, ◌≡◌, ◌≢◌, refl, none, some, List, count, update, total,
  le-total, total_unique, arith, ℕ_discrete,
}
use writeboost_rcu.Heap.{Heap}
use writeboost_rcu.Rcu.{Config, Rcu}
use writeboost_rcu.Threads.{
  done, ReadPc, outside, locking, locked, reading, WritePc, idle, enqueueing, copied, starting,
  working, publishing, reclaiming, call_step, read_step, write_step,
}
use writeboost_rcu.System.{System, History, call, start, nothing_yet, record_step, record_write}
use writeboost_rcu.System.Registry.{is_updater}
use writeboost_rcu.System.Ownership.{private, outgoing, Owned, write-keeps}

module _ {T : Type 0} (v : T) where
  -- What holds of the copy and of the history where a thread stands.
  abbrev pub ValueOk : List (T → T) → List (T → T) → Heap T → WritePc T → Type 0
  ValueOk performed published heap idle = Unit
  ValueOk performed published heap (enqueueing f) = Unit
  ValueOk performed published heap (copied f p) =
      (heap p ≡ some (apply_all published v)) × (performed ≡ published)
  ValueOk performed published heap (starting p) = heap p ≡ some (apply_all performed v)
  ValueOk performed published heap (working p fin cnt unflushed) =
      heap p ≡ some (apply_all performed v)
  ValueOk performed published heap (publishing p fin cnt) = heap p ≡ some (apply_all performed v)
  ValueOk performed published heap _ = performed ≡ published

  module _ (c : Config) (fresh : ℕ) (h : History T) (r : Rcu T) {r' : Rcu T} {pc' : WritePc T} where
    -- The updater's own copy, and the history, after its step.
    write-ValueOk :
        (pc : WritePc T)
        → write_step c fresh r pc ≡ done (r', pc')
        → r.heap r.ptr ≡ some (apply_all h.published v)
        → ValueOk h.performed h.published r.heap pc
        → ValueOk (record_write r pc h).performed (record_write r pc h).published r'.heap pc'
    unfolding write_step
    write-ValueOk idle e live ok = ground arith
    write-ValueOk (reclaiming fin cnt) e live ok = ground arith
    write-ValueOk _ e live ok = ground arith

    write-published :
        (pc : WritePc T)
        → write_step c fresh r pc ≡ done (r', pc')
        → r.heap fresh ≡ none
        → private r.ptr pc ≡ 0
        → count r.ptr r.finished ≡ 0
        → r.heap r.ptr ≡ some (apply_all h.published v)
        → ValueOk h.performed h.published r.heap pc
        → r'.heap r'.ptr ≡ some (apply_all (record_write r pc h).published v)
    unfolding write_step
    write-published idle e n a f live ok = ground arith
    write-published (reclaiming fin cnt) e n a f live ok =
        ground (arith, write-keeps c fresh r r.ptr (reclaiming fin cnt) e n a f)
    write-published _ e n a f live ok = ground arith

  pub record Values (c : Config) (h : History T) (s : System T) : Type 0 where
    pub visible : s.heap s.ptr ≡ some (apply_all h.published v)
    pub local : (i : ℕ) → i < c.threads → ValueOk h.performed h.published s.heap (s.writes i)
    pub quiet : s.update_cnt ≡ 0 → h.performed ≡ h.published

  pub start-Values : (c : Config) (p : ℕ) → Values c nothing_yet (start p v)
  unfolding start
  start-Values c p = record { visible = ground arith; local = λ i lt. tt; quiet = λ z. refl }

  -- A thread that is not the updater changes neither the objects nor what was performed.
  pub write_waiting :
      (c : Config) (fresh : ℕ) (h : History T) (r : Rcu T) {r' : Rcu T} {pc' : WritePc T}
      (pc : WritePc T)
      → write_step c fresh r pc ≡ done (r', pc')
      → is_updater pc ≡ 0
      → (r'.heap ≡ r.heap)
        × ((record_write r pc h).performed ≡ h.performed)
        × ((record_write r pc h).published ≡ h.published)
  unfolding write_step
  write_waiting c fresh h r idle e z = ground arith
  write_waiting c fresh h r (enqueueing f) e z = ground arith
  write_waiting c fresh h r _ e z = absurd (ground arith)

  -- Only the updater's last step takes the count to 0.
  write-quiet :
      (c : Config) (fresh : ℕ) (h : History T) (r : Rcu T) {r' : Rcu T} {pc' : WritePc T}
      (pc : WritePc T)
      → write_step c fresh r pc ≡ done (r', pc')
      → 0 < r.update_cnt
      → ValueOk h.performed h.published r.heap pc
      → r'.update_cnt ≡ 0
      → (record_write r pc h).performed ≡ (record_write r pc h).published
  unfolding write_step
  write-quiet c fresh h r idle e pos ok z = ground arith
  write-quiet c fresh h r _ e pos ok z = ground arith

  local_waiting :
      (performed published performed' published' : List (T → T)) (heap heap' : Heap T)
      (pc : WritePc T)
      → is_updater pc ≡ 0
      → ValueOk performed published heap pc
      → ValueOk performed' published' heap' pc
  local_waiting _ _ _ _ heap heap' idle z ok = tt
  local_waiting _ _ _ _ heap heap' (enqueueing f) z ok = tt
  local_waiting _ _ _ _ heap heap' _ z ok = absurd (omega arith)

  module _ {c : Config} {h : History T} {s : System T} (m : Values c h s)
      (single : total is_updater c.threads s.writes ≤ 1) where
    pub write-Values :
        (i fresh : ℕ)
        → i < c.threads
        → 0 < s.update_cnt
        → s.heap fresh ≡ none
        → Owned s.rcu
            (total (private s.ptr) c.threads s.writes)
            (total (outgoing s.ptr) c.threads s.writes)
            s.ptr
        → {r : Rcu T} {pc : WritePc T} → write_step c fresh s.rcu (s.writes i) ≡ done (r, pc)
        → Values c
            (record_write s.rcu (s.writes i) h)
            (record s { rcu = r; writes = update s.writes i pc })
    write-Values i fresh lt pos unused own {r} {pc} e = record {
      visible =
          write-published c fresh h s.rcu (s.writes i) e unused
            (ground (arith, own, m.visible, le-total (private s.ptr) c.threads s.writes i lt))
            (ground (arith, own, m.visible, le-total (private s.ptr) c.threads s.writes i lt))
            m.visible (m.local i lt);
      local = λ j l. elim (ℕ_discrete i j) [
        | yes same ↦
            ground
              (arith, same, write-ValueOk c fresh h s.rcu (s.writes i) e m.visible (m.local i lt))
        | no other ↦ ground (arith, other_local j l other)
      ];
      quiet = write-quiet c fresh h s.rcu (s.writes i) e pos (m.local i lt);
    }
      where
        -- The other threads keep what they rely on: at most one of them and this one is the updater.
        other_local :
            (j : ℕ)
            → j < c.threads
            → i ≢ j
            → ValueOk
                (record_write s.rcu (s.writes i) h).performed
                (record_write s.rcu (s.writes i) h).published
                r.heap
                (s.writes j)
        other_local j l other = elim (ℕ_discrete (is_updater (s.writes i)) 0) [
          | yes z ↦
              let (a, b, d) = write_waiting c fresh h s.rcu (s.writes i) e z in
              rw (a, b, d) (m.local j l)
          | no nz ↦
              local_waiting h.performed h.published (record_write s.rcu (s.writes i) h).performed
                (record_write s.rcu (s.writes i) h).published s.heap r.heap (s.writes j)
                (ground (arith, total_unique is_updater c.threads s.writes i j lt l single))
                (m.local j l)
        ]

    pub call-Values :
        (i : ℕ) (f : T → T)
        → i < c.threads
        → s.writes i ≡ idle
        → s.update_cnt + 1 < 2 ^ 64
        → Values c (record_step s (call i f) h) (record s {
          rcu = (call_step f s.rcu).0;
          writes = update s.writes i (call_step f s.rcu).1;
        })
    unfolding call_step
    call-Values i f lt e fits = record {
      visible = m.visible;
      local = λ j l. ground (arith, m.local j l, m.quiet);
      quiet = λ z. absurd (omega arith);
    }

    pub read-Values :
        (i : ℕ) (pc : ReadPc)
        → Values c h (record s {
          rcu = (read_step i s.rcu pc).0;
          reads = update s.reads i (read_step i s.rcu pc).1;
        })
    unfolding read_step
    read-Values i outside = record { visible = m.visible; local = m.local; quiet = m.quiet }
    read-Values i (locking e) = record { visible = m.visible; local = m.local; quiet = m.quiet }
    read-Values i locked = record { visible = m.visible; local = m.local; quiet = m.quiet }
    read-Values i (reading p) = record { visible = m.visible; local = m.local; quiet = m.quiet }
