-- ===== src/System/Moves.antt =====
-- What a step that is taken does to the system: the one case split that the invariants share.
use writeboost_rcu.Common.{
  ℕ, ◌<◌, ◌≡◌, refl, subst, ltb, ltb→lt, Bool-cases, inl, inr, update, arith,
}
use writeboost_rcu.Rcu.{Config, Rcu}
use writeboost_rcu.Threads.{
  Outcome, done, blocked, fault, WritePc, idle, read_step, call_step, write_step,
}
use writeboost_rcu.System.{System, Action, read, call, write, step}

module _ {T : Type 0} where
  pub data Stepped (c : Config) (s : System T) : Action T → System T → Type 0 where
    reads :
        (i : ℕ)
        → i < c.threads
        → Stepped c s (read i) (record s {
          rcu = (read_step i s.rcu (s.reads i)).0;
          reads = update s.reads i (read_step i s.rcu (s.reads i)).1;
        })
    calls :
        (i : ℕ) (f : T → T)
        → i < c.threads
        → s.writes i ≡ idle
        → Stepped c s (call i f) (record s {
          rcu = (call_step f s.rcu).0;
          writes = update s.writes i (call_step f s.rcu).1;
        })
    writes :
        (i fresh : ℕ)
        → i < c.threads
        → {r : Rcu T} {pc : WritePc T} → write_step c fresh s.rcu (s.writes i) ≡ done (r, pc)
        → Stepped c s (write i fresh) (record s { rcu = r; writes = update s.writes i pc })

  read-Stepped :
      (c : Config) (s : System T) (i : ℕ) {s' : System T}
      → step c s (read i) ≡ done s'
      → Stepped c s (read i) s'
  unfolding step
  read-Stepped c s i {s'} e = elim (Bool-cases (ltb i c.threads)) [
    | inl h ↦ subst (Stepped c s (read i)) (ground arith) (reads i (ltb→lt _ _ h))
    | inr h ↦ absurd (ground arith)
  ]

  call-Stepped :
      (c : Config) (s : System T) (i : ℕ) (f : T → T) {s' : System T} (pc : WritePc T)
      → s.writes i ≡ pc
      → step c s (call i f) ≡ done s'
      → Stepped c s (call i f) s'
  unfolding step
  call-Stepped c s i f idle q e = elim (Bool-cases (ltb i c.threads)) [
    | inl h ↦ subst (Stepped c s (call i f)) (ground arith) (calls i f (ltb→lt _ _ h) q)
    | inr h ↦ absurd (ground arith)
  ]
  call-Stepped c s i f _ q e = absurd (ground arith)

  write-Stepped :
      (c : Config) (s : System T) (i fresh : ℕ) {s' : System T} (o : Outcome (Rcu T × WritePc T))
      → write_step c fresh s.rcu (s.writes i) ≡ o
      → step c s (write i fresh) ≡ done s'
      → Stepped c s (write i fresh) s'
  unfolding step
  write-Stepped c s i fresh (done (r, pc)) q e = elim (Bool-cases (ltb i c.threads)) [
    | inl h ↦ subst (Stepped c s (write i fresh)) (ground arith) (writes i fresh (ltb→lt _ _ h) q)
    | inr h ↦ absurd (ground arith)
  ]
  write-Stepped c s i fresh blocked q e = absurd (ground arith)
  write-Stepped c s i fresh fault q e = absurd (ground arith)

  pub step-Stepped :
      (c : Config) (s : System T) (a : Action T) {s' : System T}
      → step c s a ≡ done s'
      → Stepped c s a s'
  step-Stepped c s (read i) e = read-Stepped c s i e
  step-Stepped c s (call i f) e = call-Stepped c s i f (s.writes i) refl e
  step-Stepped c s (write i fresh) e = write-Stepped c s i fresh _ refl e
