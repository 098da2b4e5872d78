-- ===== src/Buffered/Fenced/Places.antt =====
-- In such a run no reader gets ahead of its store.
use writeboost_rcu.Common.{ℕ, ◌≡◌, sym, subst, Bool-cases, inl, inr, ltb, ℕ_discrete, arith}
use writeboost_rcu.Rcu.{Config, Rcu}
use writeboost_rcu.Threads.{Outcome, done, blocked, fault, WritePc, idle, write_step}
use writeboost_rcu.Buffered.{
  BufferedPc, BufferedSystem, BufferedAction, read, drain, call, write, read_on, drained,
  with_reader, with_writer, called, written, buffered_step,
}
use writeboost_rcu.Buffered.Fenced.{InOrder}
use writeboost_rcu.Buffered.Fenced.Simulation.{Behind, read_on-Follows, drained-Follows}

module _ {T : Type 0} (c : Config) (s : BufferedSystem T) where
  reader-Behind :
      (i : ℕ) (x : Rcu T × BufferedPc) {s' : BufferedSystem T}
      → ((j : ℕ) → Behind (s.reads j))
      → Behind x.1
      → with_reader s i x ≡ s'
      → (j : ℕ) → Behind (s'.reads j)
  unfolding with_reader
  reader-Behind i x {s'} behind now same j = elim (ℕ_discrete i j) [
    | yes here ↦ let eq : x.1 ≡ s'.reads j = ground arith in subst Behind eq now
    | no apart ↦ let eq : s.reads j ≡ s'.reads j = ground arith in subst Behind eq (behind j)
  ]

  called-reads :
      (i : ℕ) (f : T → T) (pc : WritePc T) {s' : BufferedSystem T}
      → called s i f pc ≡ done s'
      → s'.reads ≡ s.reads
  unfolding called with_writer
  called-reads i f idle e = ground arith
  called-reads i f _ e = absurd (ground arith)

  written-reads :
      (i : ℕ) (o : Outcome (Rcu T × WritePc T)) {s' : BufferedSystem T}
      → written s i o ≡ done s'
      → s'.reads ≡ s.reads
  unfolding written with_writer
  written-reads i (done z) e = ground arith
  written-reads i blocked e = absurd (ground arith)
  written-reads i fault e = absurd (ground arith)

  pub step-Behind :
      (a : BufferedAction T) {s' : BufferedSystem T}
      → ((j : ℕ) → Behind (s.reads j))
      → InOrder s a
      → buffered_step c s a ≡ done s'
      → (j : ℕ) → Behind (s'.reads j)
  unfolding buffered_step
  step-Behind (read i) {s'} behind order e j = elim (Bool-cases (ltb i c.threads)) [
    | inl h ↦
        reader-Behind i (read_on i s.rcu (s.reads i)) {s' = s'} behind
          (read_on-Follows i s.rcu (s.reads i) order (behind i)).0 (ground arith) j
    | inr h ↦ absurd (ground arith)
  ]
  step-Behind (drain i) {s'} behind order e j = elim (Bool-cases (ltb i c.threads)) [
    | inl h ↦
        reader-Behind i (drained i s.rcu (s.reads i)) {s' = s'} behind
          (drained-Follows i s.rcu (s.reads i) (behind i)).0 (ground arith) j
    | inr h ↦ absurd (ground arith)
  ]
  step-Behind (call i f) {s'} behind order e j = elim (Bool-cases (ltb i c.threads)) [
    | inl h ↦
        let same = called-reads i f (s.writes i) {s' = s'} (ground arith) in
        subst (λ (u : ℕ → BufferedPc). Behind (u j)) (sym same) (behind j)
    | inr h ↦ absurd (ground arith)
  ]
  step-Behind (write i fresh) {s'} behind order e j = elim (Bool-cases (ltb i c.threads)) [
    | inl h ↦
        let same =
          written-reads i (write_step c fresh s.rcu (s.writes i)) {s' = s'} (ground arith) in
        subst (λ (u : ℕ → BufferedPc). Behind (u j)) (sym same) (behind j)
    | inr h ↦ absurd (ground arith)
  ]
