-- ===== src/FollyRcu/Reachable.antt =====
-- The invariant holds in every state that some interleaving leads to.
use writeboost_rcu.Common.{
  ℕ, ◌≡◌, refl, sym, subst, Option, none, some, List, ltb, ltb→lt, Bool-cases, inl, inr, apply_all,
  total-const, arith,
}
use writeboost_rcu.Heap.Free.{allocated-some, free-some}
use writeboost_rcu.Threads.{Outcome, done, blocked, fault}
use writeboost_rcu.FollyRcu.{
  UpdatePc, idle, exchanging, FollyRcu, FollySystem, FollyAction, reads_on, calls, updates_on,
  reclaims, update_step, folly_step, folly_start, published_at, publishes, New, FollyReach, begin,
  later,
}
use writeboost_rcu.FollyRcu.Retirement.{Domain}
use writeboost_rcu.FollyRcu.Moves.{update_step-Moved}
use writeboost_rcu.FollyRcu.Invariant.{critical, private, outgoing, Inv, next_value}
use writeboost_rcu.FollyRcu.Updates.{update-Inv}
use writeboost_rcu.FollyRcu.Steps.{read-Inv, call-Inv, reclaim-Inv}

module _ {State T : Type 0} (d : Domain State) (n : ℕ) where
  next_value-published :
      (pc : UpdatePc T) (fs : List (T → T)) (v : T)
      → next_value pc (apply_all fs v) ≡ apply_all (published_at {State = State} d pc fs) v
  next_value-published (exchanging f p) fs v = refl
  next_value-published _ fs v = refl

  module _ (fs : List (T → T)) (v : T) (s : FollySystem State T) {s' : FollySystem State T}
      (m : Inv d n (apply_all fs v) s) where
    call-done :
        (i : ℕ) (f : T → T) (pc : UpdatePc T)
        → s.updates i ≡ pc
        → folly_step d n s (calls i f) ≡ done s'
        → Inv d n (apply_all fs v) s'
    unfolding folly_step
    call-done i f idle at e = elim (Bool-cases (ltb i n)) [
      | inl h ↦ subst (Inv d n (apply_all fs v)) (ground arith) (call-Inv d m i f (ltb→lt _ _ h) at)
      | inr h ↦ absurd (ground arith)
    ]
    call-done i f _ at e = absurd (ground arith)

    read-done : (i : ℕ) → folly_step d n s (reads_on i) ≡ done s' → Inv d n (apply_all fs v) s'
    unfolding folly_step
    read-done i e = elim (Bool-cases (ltb i n)) [
      | inl h ↦ subst (Inv d n (apply_all fs v)) (ground arith) (read-Inv d m i (s.reads i) refl)
      | inr h ↦ absurd (ground arith)
    ]

    update-done :
        (i fresh : ℕ) (o : Outcome (FollyRcu State T × UpdatePc T))
        → s.heap fresh ≡ none
        → update_step d fresh s.rcu (s.updates i) ≡ o
        → folly_step d n s (updates_on i fresh) ≡ done s'
        → Inv d n (next_value (s.updates i) (apply_all fs v)) s'
    unfolding folly_step
    update-done i fresh (done z) new q e = elim (Bool-cases (ltb i n)) [
      | inl h ↦ subst (Inv d n (next_value (s.updates i) (apply_all fs v))) (ground arith) (
          update-Inv d m i fresh (ltb→lt _ _ h) new
            (update_step-Moved d fresh s.rcu (s.updates i) q) refl)
      | inr h ↦ absurd (ground arith)
    ]
    update-done i fresh blocked new q e = absurd (ground arith)
    update-done i fresh fault new q e = absurd (ground arith)

    reclaim-done :
        (p : ℕ) (o : Option State)
        → d.reclaim p s.domain ≡ o
        → folly_step d n s (reclaims p) ≡ done s'
        → Inv d n (apply_all fs v) s'
    unfolding folly_step
    reclaim-done p none q e = absurd (ground arith)
    reclaim-done p (some dom) q e =
        let (u, live) =
          allocated-some (s.heap p)
            (ground (arith, m.owned p, d.reclaim_retired p p s.domain dom q)) in
        let freed = free-some s.heap p live in
        subst (Inv d n (apply_all fs v)) (ground (arith, freed)) (reclaim-Inv d m p q)

    step-Inv :
        (a : FollyAction T)
        → New d s a
        → folly_step d n s a ≡ done s'
        → Inv d n (apply_all (publishes d s a fs) v) s'
    unfolding publishes
    step-Inv (reads_on i) new e = read-done i e
    step-Inv (calls i f) new e = call-done i f (s.updates i) refl e
    step-Inv (updates_on i fresh) new e =
        subst (λ w. Inv d n w s') (next_value-published (s.updates i) fs v)
          (update-done i fresh _ new refl e)
    step-Inv (reclaims p) new e = reclaim-done p _ refl e

  start-Inv : (p : ℕ) (v : T) → Inv d n v (folly_start d p v)
  unfolding folly_start
  start-Inv p v = record {
    owned = λ q. ground (
      arith,
      total-const (private {T = T} q) n idle refl,
      total-const (outgoing {T = T} q) n idle refl,
      d.initial_retired q,
    );
    mutex = total-const (critical {T = T}) n idle refl;
    value = ground arith;
    copies = λ i lt. tt;
    held = λ j. tt;
  }

  pub FollyReach-Inv :
      {p : ℕ} {v : T} {fs : List (T → T)} {s : FollySystem State T}
      → FollyReach d n p v fs s
      → Inv d n (apply_all fs v) s
  FollyReach-Inv {p} {v} begin = start-Inv p v
  FollyReach-Inv {v = v} (later {fs = fs} {s = s} {s' = s'} r a new e q) =
      subst (λ gs. Inv d n (apply_all gs v) s') (sym q) (step-Inv fs v s (FollyReach-Inv r) a new e)
