-- ===== src/Buffered/Fenced/Simulation.antt =====
-- A step of such a run is a step of writeboost_rcu.System, or the start of a store.
use writeboost_rcu.Common.{
  ℕ, ◌≡◌, ◌⊎◌, refl, ap, sym, subst, ◌∙◌, Bool-cases, inl, inr, true, List, ltb, update, arith,
  update-map, update-same,
}
use writeboost_rcu.Rcu.{Config, Rcu}
use writeboost_rcu.Threads as Threads
use writeboost_rcu.Threads.{
  Outcome, done, blocked, fault, map_outcome, ReadPc, WritePc, idle, write_step, call_step,
  read_step,
}
use writeboost_rcu.System as Wbrcu
use writeboost_rcu.System.{
  System, History, Reach, start, step, nothing_yet, record_step, call_from, write_from,
}
use writeboost_rcu.System.Registry.{record_write-calls}
use writeboost_rcu.Buffered.{
  BufferedPc, outside, locking, stored, locked, ahead, reading, BufferedSystem, BufferedAction,
  read, drain, call, write, read_on, drained, with_reader, with_writer, called, written,
  buffered_step, Allocates,
}
use writeboost_rcu.Buffered.Fenced.{Written, InOrder, asked}

-- A store that waits has not begun.
abbrev pub settled_pc : BufferedPc → ReadPc
settled_pc outside = Threads.outside
settled_pc (locking e) = Threads.locking e
settled_pc (stored e) = Threads.locking e
settled_pc locked = Threads.locked
settled_pc (ahead e p) = Threads.reading p
settled_pc (reading p) = Threads.reading p

-- The thread is not ahead of its store.
abbrev pub Behind : BufferedPc → Type 0
Behind (ahead e p) = ⊥
Behind _ = Unit {0}

module _ {T : Type 0} where
  abbrev pub settled : BufferedSystem T → System T
  settled s = record { rcu = s.rcu; reads = λ j. settled_pc (s.reads j); writes = s.writes }

  abbrev settled_next : Rcu T × BufferedPc → Rcu T × ReadPc
  settled_next (r, pc) = (r, settled_pc pc)

  -- What a reader's step comes to: nothing, or a step of `get_ptr`.
  abbrev pub Follows : ℕ → Rcu T → BufferedPc → Rcu T × BufferedPc → Type 0
  Follows i r pc x =
      Behind x.1
      × ((settled_next x ≡ (r, settled_pc pc)) ⊎ (settled_next x ≡ read_step i r (settled_pc pc)))

  pub read_on-Follows :
      (i : ℕ) (r : Rcu T) (pc : BufferedPc)
      → Written pc
      → Behind pc
      → Follows i r pc (read_on i r pc)
  unfolding read_on read_step
  read_on-Follows i r outside w b = (tt, inr refl)
  read_on-Follows i r (locking e) w b = (tt, inl refl)
  read_on-Follows i r (stored e) w b = absurd w
  read_on-Follows i r locked w b = (tt, inr refl)
  read_on-Follows i r (ahead e p) w b = absurd b
  read_on-Follows i r (reading p) w b = (tt, inr refl)

  pub drained-Follows :
      (i : ℕ) (r : Rcu T) (pc : BufferedPc) → Behind pc → Follows i r pc (drained i r pc)
  unfolding drained read_step
  drained-Follows i r outside b = (tt, inl refl)
  drained-Follows i r (locking e) b = (tt, inl refl)
  drained-Follows i r (stored e) b = (tt, inr refl)
  drained-Follows i r locked b = (tt, inl refl)
  drained-Follows i r (ahead e p) b = absurd b
  drained-Follows i r (reading p) b = (tt, inl refl)

  -- The step of writeboost_rcu.System that a step is, if it is one.
  abbrev pub Simulated : Config → BufferedSystem T → BufferedAction T → BufferedSystem T → Type 0
  Simulated c s a s' =
      ((settled s' ≡ settled s) × ((fs : List (T → T)) → asked a fs ≡ fs))
      ⊎ ((b : Wbrcu.Action T) × (Allocates s a → Wbrcu.Allocates (settled s) b)
          × (step c (settled s) b ≡ done (settled s'))
          × ((h : History T) → (record_step (settled s) b h).calls ≡ asked a h.calls))

  module _ (c : Config) (s : BufferedSystem T) where
    reader_at : ℕ → Rcu T × ReadPc → System T
    reader_at i (r, pc) = record {
      rcu = r;
      reads = update (λ j. settled_pc (s.reads j)) i pc;
      writes = s.writes;
    }

    with_reader-settled :
        (i : ℕ) (x : Rcu T × BufferedPc)
        → settled (with_reader s i x) ≡ reader_at i (settled_next x)
    unfolding with_reader reader_at
    with_reader-settled i x =
        ap (λ (u : ℕ → ReadPc). record { rcu = x.0; reads = u; writes = s.writes })
          (update-map settled_pc s.reads i x.1)

    reader_stays :
        (i : ℕ) (x : Rcu T × BufferedPc)
        → settled_next x ≡ (s.rcu, settled_pc (s.reads i))
        → settled (with_reader s i x) ≡ settled s
    unfolding reader_at
    reader_stays i x same =
        with_reader-settled i x
        ∙ ap (reader_at i) same
        ∙ ap (λ (u : ℕ → ReadPc). record { rcu = s.rcu; reads = u; writes = s.writes })
            (update-same (λ j. settled_pc (s.reads j)) i)

    reader_steps :
        (i : ℕ) (x : Rcu T × BufferedPc)
        → ltb i c.threads ≡ true
        → settled_next x ≡ read_step i s.rcu (settled_pc (s.reads i))
        → step c (settled s) (Wbrcu.read i) ≡ done (settled (with_reader s i x))
    unfolding step reader_at
    reader_steps i x h same = rw h (ap done (sym (with_reader-settled i x ∙ ap (reader_at i) same)))

    called-settled :
        (i : ℕ) (f : T → T) (pc : WritePc T)
        → map_outcome settled (called s i f pc) ≡ call_from (settled s) i f pc
    unfolding called call_from with_writer
    called-settled i f idle = refl
    called-settled i f _ = refl

    written-settled :
        (i fresh : ℕ) (o : Outcome (Rcu T × WritePc T))
        → map_outcome settled (written s i o) ≡ write_from c (settled s) i fresh o
    unfolding written write_from with_writer
    written-settled i fresh (done x) = refl
    written-settled i fresh blocked = refl
    written-settled i fresh fault = refl

    pub step-Simulated :
        (a : BufferedAction T) {s' : BufferedSystem T}
        → ((j : ℕ) → Behind (s.reads j))
        → InOrder s a
        → buffered_step c s a ≡ done s'
        → Simulated c s a s'
    unfolding buffered_step step
    step-Simulated (read i) {s'} behind order e = elim (Bool-cases (ltb i c.threads)) [
      | inl h ↦
          let x = read_on i s.rcu (s.reads i) in
          let same : with_reader s i x ≡ s' = ground arith in
          subst (Simulated c s (read i)) same
            (elim (read_on-Follows i s.rcu (s.reads i) order (behind i)).1 [
              | inl z ↦ inl (reader_stays i x z, λ fs. refl)
              | inr z ↦ inr (Wbrcu.read i, λ ok. tt, reader_steps i x h z, λ k. refl)
            ])
      | inr h ↦ absurd (ground arith)
    ]
    step-Simulated (drain i) {s'} behind order e = elim (Bool-cases (ltb i c.threads)) [
      | inl h ↦
          let x = drained i s.rcu (s.reads i) in
          let same : with_reader s i x ≡ s' = ground arith in
          subst (Simulated c s (drain i)) same
            (elim (drained-Follows i s.rcu (s.reads i) (behind i)).1 [
              | inl z ↦ inl (reader_stays i x z, λ fs. refl)
              | inr z ↦ inr (Wbrcu.read i, λ ok. tt, reader_steps i x h z, λ k. refl)
            ])
      | inr h ↦ absurd (ground arith)
    ]
    step-Simulated (call i f) {s'} behind order e = elim (Bool-cases (ltb i c.threads)) [
      | inl h ↦
          let taken : called s i f (s.writes i) ≡ done s' = ground arith in
          inr (
            Wbrcu.call i f,
            λ ok. tt,
            rw h (sym (called-settled i f (s.writes i)) ∙ ap (map_outcome settled) taken),
            λ k. refl,
          )
      | inr h ↦ absurd (ground arith)
    ]
    step-Simulated (write i fresh) {s'} behind order e = elim (Bool-cases (ltb i c.threads)) [
      | inl h ↦
          let taken : written s i (write_step c fresh s.rcu (s.writes i)) ≡ done s' =
            ground arith in
          inr (
            Wbrcu.write i fresh,
            λ ok. ok,
            rw h (
                sym (written-settled i fresh (write_step c fresh s.rcu (s.writes i)))
                ∙ ap (map_outcome settled) taken),
            λ k. record_write-calls s.rcu (s.writes i) k,
          )
      | inr h ↦ absurd (ground arith)
    ]
