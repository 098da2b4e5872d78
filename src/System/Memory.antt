-- ===== src/System/Memory.antt =====
-- The memory of an `rcu_protected` object is safe under every interleaving.
use writeboost_rcu.Common.{
  ℕ, ◌+◌, ◌≤◌, ◌<◌, ◌≡◌, ◌≢◌, ◌⊎◌, refl, not, bit, update, total, total-update, total-const,
  le-total, total_unique, arith, ℕ_discrete, subst, sym, none, sym, none,
}
use writeboost_rcu.Readers.{reading_of}
use writeboost_rcu.Rcu.{Config, Rcu, rcu_read_lock, rcu_read_unlock}
use writeboost_rcu.Threads.{
  done, ReadPc, outside, reading, WritePc, idle, enqueueing, call_step, read_step, write_step,
}
use writeboost_rcu.System.{System, Action, step, start, Allocates}
use writeboost_rcu.System.Moves.{Stepped, reads, calls, writes, step-Stepped}
use writeboost_rcu.System.Registry.{is_updater}
use writeboost_rcu.System.Ownership.{private, outgoing, Owned, write-Owned}
use writeboost_rcu.System.Shelter.{shelter, passed, ByteOk, write-shelter, write-late}

module _ {T : Type 0} where
  abbrev pub copies : Config → System T → ℕ → ℕ
  copies c s p = total (private p) c.threads s.writes

  abbrev pub leaving : Config → System T → ℕ → ℕ
  leaving c s p = total (outgoing p) c.threads s.writes

  pub record Memory (c : Config) (s : System T) : Type 0 where
    pub owned : (p : ℕ) → Owned s.rcu (copies c s p) (leaving c s p) p
    pub bytes : (j : ℕ) → ByteOk (s.reads j) (s.counters j)
    pub held :
        (j p : ℕ) → s.reads j ≡ reading p → 0 < shelter s.rcu (s.counters j) p + leaving c s p
    pub late :
        (i j p : ℕ)
        → i < c.threads
        → j < passed c.threads (s.writes i)
        → s.reads j ≡ reading p
        → s.counters j ≡ reading_of (bit (not s.epoch))
        → p ≡ s.ptr
    pub absent : (j : ℕ) → c.threads ≤ j → s.reads j ≡ outside

  pub start-Memory : (c : Config) (p : ℕ) (v : T) → Memory c (start p v)
  unfolding start
  start-Memory c p v = record {
    owned = λ q. ground (
      arith,
      total-const (private {T = T} q) c.threads idle refl,
      total-const (outgoing {T = T} q) c.threads idle refl,
    );
    bytes = λ j. refl;
    held = λ j q e. ground arith;
    late = λ i j q lt pos e b. ground arith;
    absent = λ j h. refl;
  }

  -- What a step in `update` leaves alone.
  write-counters :
      (c : Config) (fresh : ℕ) (r : Rcu T) {r' : Rcu T} {pc' : WritePc T} (pc : WritePc T)
      → write_step c fresh r pc ≡ done (r', pc')
      → r'.counters ≡ r.counters
  unfolding write_step
  write-counters c fresh r idle e = ground arith
  write-counters c fresh r _ e = ground arith

  write_other :
      (c : Config) (fresh : ℕ) (r : Rcu T) {r' : Rcu T} {pc' : WritePc T} (pc : WritePc T)
      → write_step c fresh r pc ≡ done (r', pc')
      → is_updater pc ≡ 0
      → (r'.ptr ≡ r.ptr) × (r'.epoch ≡ r.epoch)
  unfolding write_step
  write_other c fresh r idle e z = ground arith
  write_other c fresh r (enqueueing f) e z = ground arith
  write_other c fresh r _ e z = absurd (ground arith)

  passed_updater : (n j : ℕ) (pc : WritePc T) → j < passed n pc → 0 < is_updater pc
  passed_updater n j pc h = ground arith

  module _ {c : Config} {s : System T} (m : Memory c s) where
    read-Memory :
        (i : ℕ)
        → i < c.threads
        → (pc : ReadPc) → s.reads i ≡ pc
        → Memory c (record s {
          rcu = (read_step i s.rcu pc).0;
          reads = update s.reads i (read_step i s.rcu pc).1;
        })
    unfolding read_step rcu_read_lock rcu_read_unlock
    read-Memory i lt outside e = record {
      owned = m.owned;
      bytes = λ j. ground (arith, m.bytes j);
      held = λ j p q. ground (arith, m.held j p);
      late = λ k j p l d q b. ground (arith, m.late k j p l d);
      absent = λ j h. ground (arith, m.absent j);
    }
    read-Memory i lt _ e = record {
      owned = m.owned;
      bytes = λ j. ground (arith, m.bytes j);
      held = λ j p q. ground (arith, m.held j p);
      late = λ k j p l d q b. ground (arith, m.late k j p l d);
      absent = λ j h. ground (arith, m.absent j);
    }

    write-Memory :
        (i fresh : ℕ)
        → i < c.threads
        → total is_updater c.threads s.writes ≤ 1
        → s.heap fresh ≡ none
        → {r : Rcu T} {pc : WritePc T} → write_step c fresh s.rcu (s.writes i) ≡ done (r, pc)
        → Memory c (record s { rcu = r; writes = update s.writes i pc })
    write-Memory i fresh lt single unused {r} {pc} e = record {
      owned = λ p.
          write-Owned c fresh s.rcu p (copies c s p) _ (leaving c s p) _ (s.writes i) e unused
            (private_moves p) (outgoing_moves p) (le-total (private p) c.threads s.writes i lt)
            (le-total (outgoing p) c.threads s.writes i lt) (m.owned p);
      bytes = λ j.
          subst (λ (k : ℕ → ℕ). ByteOk (s.reads j) (k j))
            (sym (write-counters c fresh s.rcu (s.writes i) e)) (m.bytes j);
      held = λ j p q.
          write-shelter c fresh s.rcu j p (leaving c s p) _ (reader_byte j p q)
            (reader_inside j p q) (s.writes i) e (outgoing_moves p) (λ d b. m.late i j p lt d q b)
            (m.held j p q);
      late = λ k j p l d q b. elim (ℕ_discrete i k) [
        | yes same ↦
            write-late c fresh s.rcu j p (leaving c s p) (leaving c s p) (reader_byte j p q)
              (reader_inside j p q) (s.writes i) e (λ d b. m.late i j p lt d q b) (ground arith) b
        | no other ↦ late_other k j p l other (ground arith) q b
      ];
      absent = m.absent;
    }
      where
        private_moves :
            (p : ℕ)
            → total (private p) c.threads (update s.writes i pc) + private p (s.writes i)
              ≡ copies c s p + private p pc
        private_moves p = total-update (private p) c.threads s.writes i pc lt

        outgoing_moves :
            (p : ℕ)
            → total (outgoing p) c.threads (update s.writes i pc) + outgoing p (s.writes i)
              ≡ leaving c s p + outgoing p pc
        outgoing_moves p = total-update (outgoing p) c.threads s.writes i pc lt

        reader_byte : (j p : ℕ) → s.reads j ≡ reading p → (s.counters j ≡ 1) ⊎ (s.counters j ≡ 3)
        reader_byte j p q = ground (arith, m.bytes j)

        reader_inside : (j p : ℕ) → s.reads j ≡ reading p → j < c.threads
        reader_inside j p q = ground (arith, m.absent j)

        -- Only one thread is the updater, so a thread that is not passed the scan's test is not.
        mover_waits :
            (k : ℕ)
            → k < c.threads
            → i ≢ k
            → 0 < is_updater (s.writes k)
            → is_updater (s.writes i) ≡ 0
        mover_waits k l other pos = elim (ℕ_discrete (is_updater (s.writes i)) 0) [
          | yes z ↦ z
          | no nz ↦
              absurd (
                other
                  (total_unique is_updater c.threads s.writes i k lt l single (omega arith) pos))
        ]

        late_other :
            (k j p : ℕ)
            → k < c.threads
            → i ≢ k
            → j < passed c.threads (s.writes k)
            → s.reads j ≡ reading p
            → r.counters j ≡ reading_of (bit (not r.epoch))
            → p ≡ r.ptr
        late_other k j p l other d q b = ground (
          arith,
          m.late k j p l d q,
          write_other c fresh s.rcu (s.writes i) e
              (mover_waits k l other (passed_updater c.threads j (s.writes k) d)),
          write-counters c fresh s.rcu (s.writes i) e,
        )

    call-Memory :
        (i : ℕ) (f : T → T)
        → i < c.threads
        → s.writes i ≡ idle
        → Memory c (record s {
          rcu = (call_step f s.rcu).0;
          writes = update s.writes i (call_step f s.rcu).1;
        })
    unfolding call_step
    call-Memory i f lt e = record {
      owned = λ p. ground (
        arith,
        m.owned p,
        total-update (private p) c.threads s.writes i (call_step f s.rcu).1 lt,
        total-update (outgoing p) c.threads s.writes i (call_step f s.rcu).1 lt,
      );
      bytes = m.bytes;
      held = λ j p q. ground (
        arith,
        m.held j p q,
        total-update (outgoing p) c.threads s.writes i (call_step f s.rcu).1 lt,
      );
      late = λ k j p l d q b. ground (arith, m.late k j p l);
      absent = m.absent;
    }

  Stepped-Memory :
      {c : Config} {s s' : System T} {a : Action T}
      → Stepped c s a s'
      → Allocates s a
      → total is_updater c.threads s.writes ≤ 1
      → Memory c s
      → Memory c s'
  Stepped-Memory {s} (reads i lt) ok single m = read-Memory m i lt (s.reads i) refl
  Stepped-Memory (calls i f lt e) ok single m = call-Memory m i f lt e
  Stepped-Memory (writes i fresh lt e) ok single m = write-Memory m i fresh lt single ok e

  pub step-Memory :
      {c : Config} {s s' : System T} (a : Action T)
      → Allocates s a
      → step c s a ≡ done s'
      → total is_updater c.threads s.writes ≤ 1
      → Memory c s
      → Memory c s'
  step-Memory {c} {s} a ok e single m = Stepped-Memory (step-Stepped c s a e) ok single m
