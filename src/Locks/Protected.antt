-- ===== src/Locks/Protected.antt =====
-- Readers and updates of an object behind a lock exclude one another, for any lock.
use writeboost_rcu.Common.{
  apply_all, ℕ, ◌+◌, ◌<◌, ◌≡◌, ◌≢◌, ◌-◌, refl, sym, subst, some, List, [], update, total,
  total-update, total-const, le-total, total_unique, arith, ℕ_discrete,
}
use writeboost_rcu.Locks.{
  Lock, LockPc, outside, reading, updating, leaving, LockSystem, LockAction, lock_step, lock_start,
  performs, LockReach, begin, later,
}
use writeboost_rcu.Locks.Moves.{
  LockStepped, reads, starts, gives_back, performs_one, leaves, step-LockStepped,
}

abbrev pub is_reading : {T : Type 0} → LockPc T → ℕ
is_reading reading = 1
is_reading _ = 0

abbrev pub is_writing : {T : Type 0} → LockPc T → ℕ
is_writing (updating f) = 1
is_writing leaving = 1
is_writing _ = 0

module _ {State T : Type 0} (l : Lock State) where
  record LockInv (n : ℕ) (v : T) (fs : List (T → T)) (s : LockSystem State T) : Type 0 where
    counts : l.Counts s.mut (total is_reading n s.pcs) (total is_writing n s.pcs)
    value : s.object ≡ apply_all fs v

  start-LockInv : (n : ℕ) (v : T) → LockInv n v [] (lock_start l v)
  unfolding lock_start
  start-LockInv n v = record {
    counts =
        rw
          (
            total-const (is_reading {T = T}) n outside refl,
            total-const (is_writing {T = T}) n outside refl,
          )
          l.Counts-free;
    value = refl;
  }

  -- What the move of one thread does to the two counts.
  module _ {n : ℕ} (pcs : ℕ → LockPc T) (i : ℕ) (lt : i < n) {m : State} where
    recount :
        (pc : LockPc T) (r w : ℕ)
        → l.Counts m r w
        → r + is_reading (pcs i) ≡ total is_reading n pcs + is_reading pc
        → w + is_writing (pcs i) ≡ total is_writing n pcs + is_writing pc
        → l.Counts m (total is_reading n (update pcs i pc)) (total is_writing n (update pcs i pc))
    recount pc r w c a b =
        subst (λ x. l.Counts m x (total is_writing n (update pcs i pc)))
          (omega (arith, total-update is_reading n pcs i pc lt))
          (subst (l.Counts m r) (omega (arith, total-update is_writing n pcs i pc lt)) c)

  Stepped-LockInv :
      {n : ℕ} {v : T} {fs : List (T → T)} {s s' : LockSystem State T} {a : LockAction T}
      → LockStepped l n s a s'
      → LockInv n v fs s
      → LockInv n v (performs s a fs) s'
  Stepped-LockInv {n} {s = s} (reads i {m = m} lt p e) inv = record {
    counts =
        recount s.pcs i lt reading _ _ (l.read_lock_lem s.mut m _ _ inv.counts e).1 (ground arith)
          (ground arith);
    value = inv.value;
  }
  Stepped-LockInv {n} {s = s} (starts i f {m = m} lt p e) inv = record {
    counts =
        recount s.pcs i lt (updating f) _ _ (l.write_lock_lem s.mut m _ _ inv.counts e).2
          (ground arith) (ground arith);
    value = inv.value;
  }
  Stepped-LockInv {n} {s = s} (gives_back i lt p) inv = record {
    counts =
        recount s.pcs i lt outside (total is_reading n s.pcs - 1) _
          (l.read_unlock_lem s.mut _ _ (
            subst (λ x. l.Counts s.mut x (total is_writing n s.pcs))
              (ground (arith, le-total is_reading n s.pcs i lt)) inv.counts))
          (ground (arith, le-total is_reading n s.pcs i lt)) (ground arith);
    value = ground (arith, inv.value);
  }
  Stepped-LockInv {n} {s = s} (performs_one i f lt p) inv = record {
    counts = recount s.pcs i lt leaving _ _ inv.counts (ground arith) (ground arith);
    value = ground (arith, inv.value);
  }
  Stepped-LockInv {n} {s = s} (leaves i lt p) inv = record {
    counts =
        recount s.pcs i lt outside _ (total is_writing n s.pcs - 1)
          (l.write_unlock_lem s.mut _ _ (
            subst (l.Counts s.mut (total is_reading n s.pcs))
              (ground (arith, le-total is_writing n s.pcs i lt)) inv.counts))
          (ground arith) (ground (arith, le-total is_writing n s.pcs i lt));
    value = ground (arith, inv.value);
  }

  LockReach-LockInv :
      {n : ℕ} {v : T} {fs : List (T → T)} {s : LockSystem State T}
      → LockReach l n v fs s
      → LockInv n v fs s
  LockReach-LockInv {n} {v} begin = start-LockInv n v
  LockReach-LockInv {n} {v} (later {fs = fs} {s = s} {s' = s'} r a e q) =
      subst (λ k. LockInv n v k s') (sym q)
        (Stepped-LockInv (step-LockStepped l n s a e) (LockReach-LockInv r))

  neither_outside : (pc : LockPc T) → is_reading pc ≡ 0 → is_writing pc ≡ 0 → pc ≡ outside
  neither_outside outside a b = refl
  neither_outside _ a b = absurd (omega arith)

  others_outside :
      {n : ℕ} {v : T} {fs : List (T → T)} {s : LockSystem State T}
      → LockInv n v fs s
      → (i j : ℕ) → i < n
      → j < n
      → 0 < is_writing (s.pcs i)
      → j ≢ i
      → s.pcs j ≡ outside
  others_outside {n} {s = s} inv i j li lj busy other =
      let (none_read, one_writes) =
        l.exclusive s.mut _ _ inv.counts (omega (arith, le-total is_writing n s.pcs i li)) in
      neither_outside (s.pcs j) (omega (arith, le-total is_reading n s.pcs j lj))
        (elim (ℕ_discrete (is_writing (s.pcs j)) 0) [
          | yes z ↦ z
          | no nz ↦
              absurd
                (other (total_unique is_writing n s.pcs j i lj li (omega arith) (omega arith) busy))
        ])

  Stepped-object :
      {n : ℕ} {v : T} {fs : List (T → T)} {s s' : LockSystem State T} {a : LockAction T}
      → LockStepped l n s a s'
      → LockInv n v fs s
      → (i : ℕ) → i < n
      → s.pcs i ≡ reading
      → s'.object ≡ s.object
  Stepped-object (reads k lt p e) inv i li q = refl
  Stepped-object (starts k f lt p e) inv i li q = refl
  Stepped-object (gives_back k lt p) inv i li q = refl
  Stepped-object (performs_one k f lt p) inv i li q = ground (arith, others_outside inv k i lt li)
  Stepped-object (leaves k lt p) inv i li q = refl

  -- In every reachable state, whatever the lock: the object is the initial one after the callbacks
  -- that were completed, in their order; while a thread is in `update` with the lock, no other one is
  -- and none holds a pointer of `get_ptr`; and no step changes the object under a thread that holds
  -- such a pointer.
  pub lock_excludes :
      {n : ℕ} {v : T} {fs : List (T → T)} {s s' : LockSystem State T}
      → LockReach l n v fs s
      → (a : LockAction T) → lock_step l n s a ≡ some s'
      → (i : ℕ) → i < n
      → (s.object ≡ apply_all fs v)
        × (0 < is_writing (s.pcs i) → (j : ℕ) → j < n → j ≢ i → s.pcs j ≡ outside)
        × (s.pcs i ≡ reading → s'.object ≡ s.object)
  lock_excludes {n} {s = s} r a e i lt =
      let inv = LockReach-LockInv r in
      (
        inv.value,
        λ busy j lj other. others_outside inv i j lt lj busy other,
        Stepped-object (step-LockStepped l n s a e) inv i lt,
      )
