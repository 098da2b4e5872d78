-- ===== src/FollyRcu/Updates.antt =====
-- The steps of `update` keep the invariant.
use writeboost_rcu.Common.{
  ℕ, ◌+◌, ◌<◌, ◌≡◌, sym, subst, true, false, none, some, ◌==◌, bit, update, Bool-cases, inl, inr,
  total, total-update, le-total, ℕ_discrete, arith,
}
use writeboost_rcu.FollyRcu.{
  UpdatePc, idle, copying, invoking, exchanging, unlocking, retiring, FollyRcu, FollySystem,
}
use writeboost_rcu.FollyRcu.Moves.{Moved, locks, copies, invokes, exchanges, unlocks, retires}
use writeboost_rcu.FollyRcu.Retirement.{Domain}
use writeboost_rcu.FollyRcu.Invariant.{
  critical, private, outgoing, CopyOk, Inv, HeldOk-keeps, copies_after, copies-critical, next_value,
}

module _ {State T : Type 0} (d : Domain State) {n : ℕ} {w : T} {s : FollySystem State T}
    (m : Inv d n w s) (i fresh : ℕ) (lt : i < n) (new : s.heap fresh ≡ none) where
  moves :
      (weight : UpdatePc T → ℕ) (pc : UpdatePc T)
      → total weight n (update s.updates i pc) + weight (s.updates i)
        ≡ total weight n s.updates + weight pc
  moves weight pc = total-update weight n s.updates i pc lt

  abbrev out : ℕ → ℕ
  out p = total (outgoing p) n s.updates

  -- What waited for a reader, or is retired now while it is inside, waits for it.
  retire-lives :
      (j old p : ℕ)
      → s.updates i ≡ retiring old
      → d.inside s.domain j ≡ true
      → 0 < bit (p == s.ptr) + out p + bit (d.waits s.domain j p)
      → 0
        < bit (p == s.ptr)
          + total (outgoing p) n (update s.updates i idle)
          + bit (d.waits (d.rcu_retire old s.domain) j p)
  retire-lives j old p e inside live = elim (ℕ_discrete p old) [
    | yes same ↦
        let kept : d.waits (d.rcu_retire old s.domain) j p ≡ true =
          subst (λ q. d.waits (d.rcu_retire old s.domain) j q ≡ true) (sym same)
            (d.retire_waits old j s.domain inside) in
        ground (arith, kept)
    | no apart ↦ elim (Bool-cases (d.waits s.domain j p)) [
      | inl waited ↦ ground (arith, d.more_waits old j p s.domain waited)
      | inr free ↦ ground (arith, moves (outgoing p) idle)
    ]
  ]

  pub update-Inv :
      {pc : UpdatePc T} {z : FollyRcu State T × UpdatePc T}
      → Moved d fresh s.rcu pc z
      → s.updates i ≡ pc
      → Inv d n
          (next_value pc w)
          (record { rcu = z.0; reads = s.reads; updates = update s.updates i z.1 })
  update-Inv (locks f l) e = record {
    owned = λ p.
        ground (arith, m.owned p, moves (private p) (copying f), moves (outgoing p) (copying f));
    mutex = ground (arith, m.mutex, moves critical (copying f));
    value = m.value;
    copies = copies_after n i s.updates s.heap w (copying f) tt (λ k below apart. m.copies k below);
    held = λ j.
        HeldOk-keeps d s.rcu (record s.rcu { is_locked = true }) out _ j (s.reads j) (λ x. x)
          (λ p inside live. ground (arith, moves (outgoing p) (copying f))) (m.held j);
  }
  update-Inv (copies f v l) e = record {
    owned = λ p. ground (
      arith,
      m.owned p,
      new,
      moves (private p) (invoking f fresh),
      moves (outgoing p) (invoking f fresh),
    );
    mutex = ground (arith, m.mutex, moves critical (invoking f fresh));
    value = ground (arith, m.value, new);
    copies =
        copies-critical n i s.updates s.is_locked (update s.heap fresh (some v)) w
          (invoking f fresh) lt m.mutex (ground arith) (ground (arith, m.value));
    held = λ j.
        HeldOk-keeps d s.rcu s.rcu out _ j (s.reads j) (λ x. x)
          (λ p inside live. ground (arith, moves (outgoing p) (invoking f fresh))) (m.held j);
  }
  update-Inv (invokes f p v l) e = record {
    owned = λ q.
        ground (
          arith,
          m.owned q,
          moves (private q) (exchanging f p),
          moves (outgoing q) (exchanging f p),
        );
    mutex = ground (arith, m.mutex, moves critical (exchanging f p));
    value = ground (arith, m.value, m.owned p, le-total (private p) n s.updates i lt);
    copies =
        copies-critical n i s.updates s.is_locked (update s.heap p (some (f v))) w (exchanging f p)
          lt m.mutex (ground arith)
          (let mine = subst (CopyOk s.heap w) e (m.copies i lt) in ground (arith, mine, l));
    held = λ j.
        HeldOk-keeps d s.rcu s.rcu out _ j (s.reads j) (λ x. x)
          (λ q inside live. ground (arith, moves (outgoing q) (exchanging f p))) (m.held j);
  }
  update-Inv (exchanges f p) e = record {
    owned = λ q. ground (
      arith,
      m.owned q,
      moves (private q) (unlocking s.ptr),
      moves (outgoing q) (unlocking s.ptr),
    );
    mutex = ground (arith, m.mutex, moves critical (unlocking s.ptr));
    value = subst (CopyOk s.heap w) e (m.copies i lt);
    copies =
        copies-critical n i s.updates s.is_locked s.heap (f w) (unlocking s.ptr) lt m.mutex
          (ground arith) tt;
    held = λ j.
        HeldOk-keeps d s.rcu (record s.rcu { ptr = p }) out _ j (s.reads j) (λ x. x)
          (λ q inside live. ground (arith, moves (outgoing q) (unlocking s.ptr))) (m.held j);
  }
  update-Inv (unlocks old) e = record {
    owned = λ p.
        ground
          (arith, m.owned p, moves (private p) (retiring old), moves (outgoing p) (retiring old));
    mutex = ground (arith, m.mutex, moves critical (retiring old));
    value = m.value;
    copies =
        copies_after n i s.updates s.heap w (retiring old) tt (λ k below apart. m.copies k below);
    held = λ j.
        HeldOk-keeps d s.rcu (record s.rcu { is_locked = false }) out _ j (s.reads j) (λ x. x)
          (λ p inside live. ground (arith, moves (outgoing p) (retiring old))) (m.held j);
  }
  update-Inv (retires old) e = record {
    owned = λ p. ground (
      arith,
      m.owned p,
      moves (private p) idle,
      moves (outgoing p) idle,
      d.retire_retired old p s.domain,
    );
    mutex = ground (arith, m.mutex, moves critical idle);
    value = m.value;
    copies = copies_after n i s.updates s.heap w idle tt (λ k below apart. m.copies k below);
    held = λ j.
        HeldOk-keeps d s.rcu (record s.rcu { domain = d.rcu_retire old s.domain }) out _ j
          (s.reads j) (d.retire_inside old j s.domain)
          (λ p inside live. retire-lives j old p e inside live) (m.held j);
  }
