-- ===== src/Locks/Moves.antt =====
-- What a step that is taken does to an object behind a lock.
use writeboost_rcu.Common.{
  ℕ, ◌<◌, ◌≡◌, refl, subst, inl, inr, Bool-cases, Option, none, some, ltb, ltb→lt, update, arith,
}
use writeboost_rcu.Locks.{
  Lock, LockPc, outside, reading, updating, leaving, LockSystem, LockAction, get_ptr, start_update,
  proceed, lock_step,
}

module _ {State T : Type 0} (l : Lock State) where
  pub data LockStepped (n : ℕ) (s : LockSystem State T)
      : LockAction T → LockSystem State T → Type 0 where
    reads :
        (i : ℕ) {m : State}
        → i < n
        → s.pcs i ≡ outside
        → l.read_lock s.mut ≡ some m
        → LockStepped n s (get_ptr i) (record s { mut = m; pcs = update s.pcs i reading })
    starts :
        (i : ℕ) (f : T → T) {m : State}
        → i < n
        → s.pcs i ≡ outside
        → l.write_lock s.mut ≡ some m
        → LockStepped n s
            (start_update i f)
            (record s { mut = m; pcs = update s.pcs i (updating f) })
    gives_back :
        (i : ℕ)
        → i < n
        → s.pcs i ≡ reading
        → LockStepped n s
            (proceed i)
            (record s { mut = l.read_unlock s.mut; pcs = update s.pcs i outside })
    performs_one :
        (i : ℕ) (f : T → T)
        → i < n
        → s.pcs i ≡ updating f
        → LockStepped n s
            (proceed i)
            (record s { object = f s.object; pcs = update s.pcs i leaving })
    leaves :
        (i : ℕ)
        → i < n
        → s.pcs i ≡ leaving
        → LockStepped n s
            (proceed i)
            (record s { mut = l.write_unlock s.mut; pcs = update s.pcs i outside })

  get_ptr-LockStepped :
      (n : ℕ) (s : LockSystem State T) (i : ℕ) {s' : LockSystem State T} (pc : LockPc T)
      (o : Option State)
      → i < n
      → s.pcs i ≡ pc
      → l.read_lock s.mut ≡ o
      → lock_step l n s (get_ptr i) ≡ some s'
      → LockStepped n s (get_ptr i) s'
  unfolding lock_step
  get_ptr-LockStepped n s i outside (some m) lt p q e =
      subst (LockStepped n s (get_ptr i)) (ground arith) (reads i lt p q)
  get_ptr-LockStepped n s i outside none lt p q e = absurd (ground arith)
  get_ptr-LockStepped n s i _ o lt p q e = absurd (ground arith)

  start-LockStepped :
      (n : ℕ) (s : LockSystem State T) (i : ℕ) (f : T → T) {s' : LockSystem State T} (pc : LockPc T)
      (o : Option State)
      → i < n
      → s.pcs i ≡ pc
      → l.write_lock s.mut ≡ o
      → lock_step l n s (start_update i f) ≡ some s'
      → LockStepped n s (start_update i f) s'
  unfolding lock_step
  start-LockStepped n s i f outside (some m) lt p q e =
      subst (LockStepped n s (start_update i f)) (ground arith) (starts i f lt p q)
  start-LockStepped n s i f outside none lt p q e = absurd (ground arith)
  start-LockStepped n s i f _ o lt p q e = absurd (ground arith)

  proceed-LockStepped :
      (n : ℕ) (s : LockSystem State T) (i : ℕ) {s' : LockSystem State T} (pc : LockPc T)
      → i < n
      → s.pcs i ≡ pc
      → lock_step l n s (proceed i) ≡ some s'
      → LockStepped n s (proceed i) s'
  unfolding lock_step
  proceed-LockStepped n s i outside lt p e = absurd (ground arith)
  proceed-LockStepped n s i reading lt p e =
      subst (LockStepped n s (proceed i)) (ground arith) (gives_back i lt p)
  proceed-LockStepped n s i (updating f) lt p e =
      subst (LockStepped n s (proceed i)) (ground arith) (performs_one i f lt p)
  proceed-LockStepped n s i leaving lt p e =
      subst (LockStepped n s (proceed i)) (ground arith) (leaves i lt p)

  pub step-LockStepped :
      (n : ℕ) (s : LockSystem State T) (a : LockAction T) {s' : LockSystem State T}
      → lock_step l n s a ≡ some s'
      → LockStepped n s a s'
  unfolding lock_step
  step-LockStepped n s (get_ptr i) e = elim (Bool-cases (ltb i n)) [
    | inl h ↦ get_ptr-LockStepped n s i (s.pcs i) _ (ltb→lt _ _ h) refl refl e
    | inr h ↦ absurd (ground arith)
  ]
  step-LockStepped n s (start_update i f) e = elim (Bool-cases (ltb i n)) [
    | inl h ↦ start-LockStepped n s i f (s.pcs i) _ (ltb→lt _ _ h) refl refl e
    | inr h ↦ absurd (ground arith)
  ]
  step-LockStepped n s (proceed i) e = elim (Bool-cases (ltb i n)) [
    | inl h ↦ proceed-LockStepped n s i (s.pcs i) (ltb→lt _ _ h) refl e
    | inr h ↦ absurd (ground arith)
  ]
