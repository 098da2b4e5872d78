-- ===== src/Numa/Interleaved/Simulation.antt =====
-- Without NUMA every run of the threads is a run of those of writeboost_rcu.System.

use writeboost_rcu.Common.{
  Option, none, some, false, update-map, ℕ, ◌≡◌, refl, ap, ◌∙◌, Bool-cases, inl, inr, Option-cases,
  List, [], ◌∷◌, ltb, update, arith,
}
use writeboost_rcu.Rcu.{Config, Rcu}
use writeboost_rcu.Threads.{map_outcome, Outcome, done, blocked, fault, ReadPc, WritePc}
use writeboost_rcu.System as Wbrcu
use writeboost_rcu.System.{
  System, History, Reach, start, call_from, write_from, step, nothing_yet, record_step,
}
use writeboost_rcu.Numa.{NumaRcu, numa_free_all, invoke}
use writeboost_rcu.Numa.Threads.{
  registered, renewing, NumaReadPc, NumaWritePc, idle, enqueueing, copied, working, reclaiming,
  numa_read_step, numa_call_step, numa_write_step, numa_perform,
}
use writeboost_rcu.Numa.Interleaved.{
  with_node, Answered, read_asks, write_asks, node_for, NumaSystem, NumaAction, read, call, write,
  numa_read, numa_call, numa_write, numa_step,
}
use writeboost_rcu.Numa.Interleaved.Plain.{
  plain_read, plain_write, numa_read_step-plain, numa_call_step-plain, numa_write_step-plain,
  plain_next,
}
use writeboost_rcu.Numa.Plain.Memory.{numa_free_all-NoRaw}
use writeboost_rcu.Numa.Plain.{plain}
use writeboost_rcu.Numa.Plain.Quiet.{Quiet}
use writeboost_rcu.Numa.Plain.Flush.{invoke-SameObjects}

module _ {T : Type 0} where
  -- The run of `wbrcu::rcu_protected` that a run without NUMA is.
  abbrev pub plain_system : NumaSystem T → System T
  plain_system s = record {
    rcu = plain s.rcu;
    reads = λ j. plain_read (s.reads j);
    writes = λ j. plain_write (s.writes j);
  }

  abbrev pub plain_action : NumaAction T → Wbrcu.Action T
  plain_action (read i answer) = Wbrcu.read i
  plain_action (call i f) = Wbrcu.call i f
  plain_action (write i answer fresh) = Wbrcu.write i fresh

  perform-Quiet :
      (c : Config) (r : NumaRcu T) (p fin cnt unflushed : ℕ) (queue : List (T → T)) {k : NumaRcu T}
      {pc : NumaWritePc T}
      → Quiet r
      → numa_perform c r p fin cnt unflushed queue ≡ done (k, pc)
      → Quiet k
  unfolding numa_perform
  perform-Quiet c r p fin cnt unflushed [] quiet e = absurd (ground arith)
  perform-Quiet c r p fin cnt unflushed (f ∷ rest) (numa, one, solid) e =
      elim (Option-cases (invoke r.heap p f)) [
        | inl d ↦ absurd (ground arith)
        | inr (h, d) ↦
            let kept = invoke-SameObjects r.heap p f {h' = h} solid d in
            (ground arith, ground arith, λ q. ground (arith, kept.0 q))
      ]

  pub write-Quiet :
      (c : Config) (node fresh : ℕ) (r : NumaRcu T) (pc : NumaWritePc T) {k : NumaRcu T}
      {pc' : NumaWritePc T}
      → Quiet r
      → numa_write_step c node fresh r pc ≡ done (k, pc')
      → Quiet k
  unfolding numa_write_step
  write-Quiet c node fresh r idle quiet e = absurd (ground arith)
  write-Quiet c node fresh r (copied f p) {k} (numa, one, solid) e =
      elim (Option-cases (invoke r.heap p f)) [
        | inl d ↦ absurd (ground arith)
        | inr (h, d) ↦
            let kept = invoke-SameObjects r.heap p f {h' = h} solid d in
            (ground arith, ground arith, λ q. ground (arith, kept.0 q))
      ]
  write-Quiet c node fresh r (working p fin cnt unflushed) {k} {pc'} quiet e =
      elim (Bool-cases (ltb fin cnt)) [
        | inl more ↦
            perform-Quiet c r p fin cnt unflushed r.update_queue {k = k} {pc = pc'} quiet
              (ground arith)
        | inr all ↦ (ground arith, ground arith, λ q. ground (arith, quiet.2 q))
      ]
  write-Quiet c node fresh r (reclaiming i p fin cnt) (numa, one, solid) e =
      elim (Option-cases (numa_free_all r.heap r.finished)) [
        | inl d ↦ absurd (ground arith)
        | inr (h, d) ↦
            let solid' = numa_free_all-NoRaw r.heap r.finished {h' = h} solid d in
            (ground arith, ground arith, λ q. ground (arith, solid' q))
      ]
  write-Quiet c node fresh r _ (numa, one, solid) e =
      (ground arith, ground arith, λ q. ground (arith, solid q))

  answered :
      (next : ℕ → Outcome (NumaSystem T)) (o : Option ℕ) {s' : NumaSystem T}
      → with_node next o ≡ done s'
      → (node : ℕ) × (o ≡ some node)
  answered next none e = absurd (ground arith)
  answered next (some node) e = (node, refl)

  pub taken-Answered :
      (c : Config) (s : NumaSystem T) (a : NumaAction T) {s' : NumaSystem T}
      → numa_step c s a ≡ done s'
      → Answered s a
  unfolding numa_step
  taken-Answered c s (read i answer) {s'} e = elim (Bool-cases (ltb i c.threads)) [
    | inl h ↦
        answered (λ node. done (numa_read s i (numa_read_step i node s.rcu (s.reads i))))
          (node_for (read_asks (s.reads i)) answer) {s' = s'} (ground arith)
    | inr h ↦ absurd (ground arith)
  ]
  taken-Answered c s (call i f) e = tt
  taken-Answered c s (write i answer fresh) e = tt

  module _ (c : Config) (s : NumaSystem T) (quiet : Quiet s.rcu) where
    -- The two systems after a step of a thread in `get_ptr`, and in `update`.
    read_at : Rcu T × ReadPc → ℕ → System T
    read_at (r, pc) i = record {
      rcu = r;
      reads = update (λ j. plain_read (s.reads j)) i pc;
      writes = λ j. plain_write (s.writes j);
    }

    written_at : Rcu T × WritePc T → ℕ → System T
    written_at (r, pc) i = record {
      rcu = r;
      reads = λ j. plain_read (s.reads j);
      writes = update (λ j. plain_write (s.writes j)) i pc;
    }

    moved-plain :
        (i : ℕ) (x : NumaRcu T × NumaWritePc T)
        → plain_system (record { rcu = x.0; reads = s.reads; writes = update s.writes i x.1 })
          ≡ written_at (plain_next x) i
    unfolding written_at
    moved-plain i x =
        ap
          (λ (w : ℕ → WritePc T). record {
            rcu = plain x.0;
            reads = λ j. plain_read (s.reads j);
            writes = w;
          })
          (update-map plain_write s.writes i x.1)

    read-plain :
        (i : ℕ) (x : NumaRcu T × NumaReadPc)
        → plain_system (numa_read s i x) ≡ read_at (plain x.0, plain_read x.1) i
    unfolding read_at numa_read
    read-plain i x =
        ap
          (λ (w : ℕ → ReadPc). record {
            rcu = plain x.0;
            reads = w;
            writes = λ j. plain_write (s.writes j);
          })
          (update-map plain_read s.reads i x.1)

    call-plain :
        (i : ℕ) (f : T → T) (pc : NumaWritePc T)
        → map_outcome plain_system (numa_call s i f pc)
          ≡ call_from (plain_system s) i f (plain_write pc)
    unfolding numa_call call_from written_at
    call-plain i f idle = ap done (
        moved-plain i (numa_call_step f s.rcu)
        ∙ ap (λ z. written_at z i) (numa_call_step-plain f s.rcu))
    call-plain i f (enqueueing g) = refl
    call-plain i f _ = refl

    write-plain :
        (i fresh : ℕ) (o : Outcome (NumaRcu T × NumaWritePc T))
        → map_outcome plain_system (numa_write s i o)
          ≡ write_from c (plain_system s) i fresh (map_outcome plain_next o)
    unfolding numa_write write_from written_at
    write-plain i fresh (done x) = ap done (moved-plain i x)
    write-plain i fresh blocked = refl
    write-plain i fresh fault = refl

    pub write_asks-plain : (pc : NumaWritePc T) → write_asks s.rcu pc ≡ false
    write_asks-plain (registered f) = quiet.0
    write_asks-plain (renewing fin cnt) = quiet.0
    write_asks-plain _ = refl

    -- Without NUMA every step, taken, blocked or undefined, is that of `wbrcu::rcu_protected`, as far as
    -- `get_current_numa_node` returns.
    pub numa_step-plain :
        (a : NumaAction T)
        → Answered s a
        → map_outcome plain_system (numa_step c s a) ≡ step c (plain_system s) (plain_action a)
    unfolding numa_step step read_at
    numa_step-plain (read i answer) (n, known) = elim (Bool-cases (ltb i c.threads)) [
      | inl h ↦
          rw (h, known)
            (ap done (
              read-plain i (numa_read_step i n s.rcu (s.reads i))
              ∙ ap (λ z. read_at z i) (numa_read_step-plain i n s.rcu (s.reads i) quiet)))
      | inr h ↦ rw h
    ]
    numa_step-plain (call i f) ok = elim (Bool-cases (ltb i c.threads)) [
      | inl h ↦ rw h (call-plain i f (s.writes i))
      | inr h ↦ rw h
    ]
    numa_step-plain (write i answer fresh) ok = elim (Bool-cases (ltb i c.threads)) [
      | inl h ↦
          rw (h, write_asks-plain (s.writes i))
            (write-plain i fresh (numa_write_step c 0 fresh s.rcu (s.writes i))
              ∙ ap (write_from c (plain_system s) i fresh)
                  (numa_write_step-plain c 0 fresh s.rcu (s.writes i) quiet))
      | inr h ↦ rw h
    ]
