-- ===== src/FollyRcu/Moves.antt =====
-- What a step of `update` that is taken does: the one case split that the invariant shares.
use writeboost_rcu.Common.{
  ℕ, ◌≡◌, subst, true, false, Bool-cases, inl, inr, some, Option-cases, update, arith,
}
use writeboost_rcu.Threads.{done}
use writeboost_rcu.FollyRcu.{
  UpdatePc, idle, locking, copying, invoking, exchanging, unlocking, retiring, FollyRcu,
  update_step,
}
use writeboost_rcu.FollyRcu.Retirement.{Domain}

module _ {State T : Type 0} (d : Domain State) (fresh : ℕ) (r : FollyRcu State T) where
  pub data Moved : UpdatePc T → FollyRcu State T × UpdatePc T → Type 0 where
    locks :
        (f : T → T)
        → r.is_locked ≡ false
        → Moved (locking f) (record r { is_locked = true }, copying f)
    copies :
        (f : T → T) (v : T)
        → r.heap r.ptr ≡ some v
        → Moved (copying f) (record r { heap = update r.heap fresh (some v) }, invoking f fresh)
    invokes :
        (f : T → T) (p : ℕ) (v : T)
        → r.heap p ≡ some v
        → Moved (invoking f p) (record r { heap = update r.heap p (some (f v)) }, exchanging f p)
    exchanges : (f : T → T) (p : ℕ) → Moved (exchanging f p) (record r { ptr = p }, unlocking r.ptr)
    unlocks : (old : ℕ) → Moved (unlocking old) (record r { is_locked = false }, retiring old)
    retires :
        (old : ℕ) → Moved (retiring old) (record r { domain = d.rcu_retire old r.domain }, idle)

  pub update_step-Moved :
      (pc : UpdatePc T) {z : FollyRcu State T × UpdatePc T}
      → update_step d fresh r pc ≡ done z
      → Moved pc z
  unfolding update_step
  update_step-Moved idle e = absurd (ground arith)
  update_step-Moved (locking f) e = elim (Bool-cases r.is_locked) [
    | inl l ↦ absurd (ground arith)
    | inr l ↦ subst (Moved (locking f)) (ground arith) (locks f l)
  ]
  update_step-Moved (copying f) e = elim (Option-cases (r.heap r.ptr)) [
    | inl n ↦ absurd (ground arith)
    | inr (v, l) ↦ subst (Moved (copying f)) (ground arith) (copies f v l)
  ]
  update_step-Moved (invoking f p) e = elim (Option-cases (r.heap p)) [
    | inl n ↦ absurd (ground arith)
    | inr (v, l) ↦ subst (Moved (invoking f p)) (ground arith) (invokes f p v l)
  ]
  update_step-Moved (exchanging f p) e =
      subst (Moved (exchanging f p)) (ground arith) (exchanges f p)
  update_step-Moved (unlocking old) e = subst (Moved (unlocking old)) (ground arith) (unlocks old)
  update_step-Moved (retiring old) e = subst (Moved (retiring old)) (ground arith) (retires old)
