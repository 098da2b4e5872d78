-- ===== src/System/Registry.antt =====
-- `m_updateCnt`: who is the updater, and what the count stands for.
use writeboost_rcu.Common.{
  ℕ, ◌+◌, ◌≤◌, ◌<◌, ◌^◌, ◌≡◌, refl, ap, sym, subst, List, [], ◌∷◌, if◌then◌else◌, ◌==◌, length,
  length-append, update, total, total-update, total-const, le-total, arith,
}
use writeboost_rcu.Readers.{Counters}
use writeboost_rcu.Rcu.{Config, Rcu, rcu_read_lock, rcu_read_unlock}
use writeboost_rcu.Threads.{
  done, WritePc, idle, enqueueing, registered, copied, starting, working, publishing, retiring,
  scanning, reclaiming, flipping, finishing, renewing, call_step, write_step, read_step, ReadPc,
  outside, locking, locked, reading,
}
use writeboost_rcu.System.{
  System, History, Action, read, call, write, record_step, step, record_write, perform_first, start,
  nothing_yet,
}
use writeboost_rcu.System.Moves.{Stepped, reads, calls, writes, step-Stepped}

module _ {T : Type 0} where
  -- How much of `m_updateCnt` a thread accounts for.
  abbrev pub weight : WritePc T → ℕ
  weight idle = 0
  weight (enqueueing f) = 1
  weight (registered f) = 1
  weight (copied f p) = 1
  weight (starting p) = 1
  weight (working p fin cnt unflushed) = fin
  weight (publishing p fin cnt) = fin
  weight (retiring old fin cnt) = fin
  weight (scanning k fin cnt) = fin
  weight (reclaiming fin cnt) = fin
  weight (flipping fin cnt) = fin
  weight (finishing fin cnt) = fin
  weight (renewing fin cnt) = fin

  -- 1 for a thread that is registered as the updater.
  abbrev pub is_updater : WritePc T → ℕ
  is_updater idle = 0
  is_updater (enqueueing f) = 0
  is_updater _ = 1

  -- The facts about the count, with the sums over all threads as numbers.
  pub record Counted (r : Rcu T) (all updaters : ℕ) : Type 0 where
    pub counted : all + length r.update_queue ≡ r.update_cnt
    pub single : updaters ≡ (if r.update_cnt == 0 then 0 else 1)

  module _ (c : Config) (fresh : ℕ) {r r' : Rcu T} {all all' updaters updaters' : ℕ}
      {pc' : WritePc T} (inv : Counted r all updaters) (fits : r.update_cnt < 2 ^ 64) where
    write-Counted :
        (pc : WritePc T)
        → write_step c fresh r pc ≡ done (r', pc')
        → weight pc ≤ all
        → is_updater pc ≤ updaters
        → is_updater pc ≤ weight pc
        → all' + weight pc ≡ all + weight pc'
        → updaters' + is_updater pc ≡ updaters + is_updater pc'
        → Counted r' all' updaters' × (r'.update_cnt ≤ r.update_cnt) × (is_updater pc' ≤ weight pc')
    unfolding write_step
    write-Counted idle e a b d f g = ground arith
    write-Counted (enqueueing u) e a b d f g = ground (arith, length-append r.update_queue (u ∷ []))
    write-Counted (registered u) e a b d f g = ground arith
    write-Counted (working p fin cnt unflushed) e a b d f g = ground arith
    write-Counted (scanning k fin cnt) e a b d f g = ground arith
    write-Counted _ e a b d f g = ground arith

  call-Counted :
      (f : T → T) {r : Rcu T} {all all' updaters updaters' : ℕ}
      → Counted r all updaters
      → r.update_cnt + 1 < 2 ^ 64
      → all' ≡ all + weight (call_step f r).1
      → updaters' ≡ updaters + is_updater (call_step f r).1
      → Counted (call_step f r).0 all' updaters'
        × ((call_step f r).0.update_cnt ≡ r.update_cnt + 1)
        × (is_updater (call_step f r).1 ≤ weight (call_step f r).1)
  unfolding call_step
  call-Counted f inv fits p q = ground arith

  -- A step of a reader touches the readers' bytes and nothing else.
  pub read_step-same :
      (i : ℕ) (r : Rcu T) (pc : ReadPc)
      → (m : Counters) × ((read_step i r pc).0 ≡ record r { counters = m })
  unfolding read_step rcu_read_lock rcu_read_unlock
  read_step-same i r outside = (r.counters, refl)
  read_step-same i r (locking e) = ((rcu_read_lock r i e).counters, refl)
  read_step-same i r locked = (r.counters, refl)
  read_step-same i r (reading p) = ((rcu_read_unlock r i).counters, refl)

  pub record Registry (c : Config) (h : History T) (s : System T) : Type 0 where
    pub few : s.update_cnt ≤ length h.calls
    pub count :
        Counted s.rcu (total weight c.threads s.writes) (total is_updater c.threads s.writes)
    pub progressed : (i : ℕ) → is_updater (s.writes i) ≤ weight (s.writes i)

  perform_first-calls : (h : History T) (q : List (T → T)) → (perform_first h q).calls ≡ h.calls
  perform_first-calls h [] = refl
  perform_first-calls h (f ∷ rest) = refl

  -- Only a call adds to the calls.
  pub record_write-calls :
      (r : Rcu T) (pc : WritePc T) (h : History T) → (record_write r pc h).calls ≡ h.calls
  record_write-calls r (working p fin cnt unflushed) h =
      ground (arith, perform_first-calls h r.update_queue)
  record_write-calls r (idle) h = refl
  record_write-calls r _ h = refl

  pub start-Registry : (c : Config) (p : ℕ) (v : T) → Registry c nothing_yet (start p v)
  unfolding start
  start-Registry c p v = record {
    few = omega arith;
    count = ground (
      arith,
      total-const (weight) c.threads idle refl,
      total-const (is_updater) c.threads idle refl,
    );
    progressed = λ i. omega arith;
  }

  Stepped-Registry :
      {c : Config} {h : History T} {s s' : System T} {a : Action T}
      → Stepped c s a s'
      → length (record_step s a h).calls < 2 ^ 64
      → Registry c h s
      → Registry c (record_step s a h) s'
  Stepped-Registry {s} (reads i lt) fits inv = record {
    few = ground (arith, read_step-same i s.rcu (s.reads i));
    count = ground (arith, read_step-same i s.rcu (s.reads i));
    progressed = inv.progressed;
  }
  Stepped-Registry {c} {s} (calls i f lt e) fits inv = record {
    few = omega (arith, k.1);
    count = k.0;
    progressed = λ j. ground (arith, k.2, inv.progressed j);
  }
    where
      k :
          Counted
            (call_step f s.rcu).0
            (total weight c.threads (update s.writes i (call_step f s.rcu).1))
            (total is_updater c.threads (update s.writes i (call_step f s.rcu).1))
          × ((call_step f s.rcu).0.update_cnt ≡ s.update_cnt + 1)
          × (is_updater (call_step f s.rcu).1 ≤ weight (call_step f s.rcu).1)
      k =
          call-Counted f inv.count (omega (arith, inv.few))
            (ground (arith, total-update weight c.threads s.writes i (call_step f s.rcu).1))
            (ground (arith, total-update is_updater c.threads s.writes i (call_step f s.rcu).1))
  Stepped-Registry {c} {h} {s} (writes i fresh lt {r = r} {pc = pc} e) fits inv = record {
    few = omega (arith, k.1, inv.few, ap length (record_write-calls s.rcu (s.writes i) h));
    count = k.0;
    progressed = λ j. ground (arith, k.2, inv.progressed j);
  }
    where
      k :
          Counted r
            (total weight c.threads (update s.writes i pc))
            (total is_updater c.threads (update s.writes i pc))
          × (r.update_cnt ≤ s.update_cnt)
          × (is_updater pc ≤ weight pc)
      k =
          write-Counted c fresh inv.count
            (omega (arith, inv.few, ap length (record_write-calls s.rcu (s.writes i) h)))
            (s.writes i) e (le-total weight c.threads s.writes i lt)
            (le-total is_updater c.threads s.writes i lt) (inv.progressed i)
            (total-update weight c.threads s.writes i pc lt)
            (total-update is_updater c.threads s.writes i pc lt)

  -- A step forgets no call.
  pub calls-le-record_step :
      (s : System T) (a : Action T) (h : History T)
      → length h.calls ≤ length (record_step s a h).calls
  calls-le-record_step s (read i) h = omega arith
  calls-le-record_step s (call i f) h = omega arith
  calls-le-record_step s (write i fresh) h =
      omega (arith, ap length (record_write-calls s.rcu (s.writes i) h))

  pub step-Registry :
      {c : Config} {h h' : History T} {s s' : System T} (a : Action T)
      → step c s a ≡ done s'
      → h' ≡ record_step s a h
      → length h'.calls < 2 ^ 64
      → Registry c h s
      → Registry c h' s'
  step-Registry {c} {h} {s = s} {s' = s'} a e q fits inv =
      subst (λ k. Registry c k s') (sym q)
        (Stepped-Registry (step-Stepped c s a e) (subst (λ k. length k.calls < 2 ^ 64) q fits) inv)

  pub calls-le :
      (h : History T) (s : System T) (a : Action T) {h' : History T}
      → h' ≡ record_step s a h
      → length h.calls ≤ length h'.calls
  calls-le h s a q = rw q (calls-le-record_step s a h)
