-- ===== src/FollyRcu/Steps.antt =====
-- The steps of `get_ptr`, the calls of `update` and the deleters keep the invariant.
use writeboost_rcu.Common.{
  ℕ, ◌+◌, ◌<◌, ◌≡◌, ◌≢◌, refl, subst, none, some, update, total, total-update, le-total, ℕ_discrete,
  arith,
}
use writeboost_rcu.FollyRcu.{
  GetPtrPc, outside, entered, holding, UpdatePc, idle, locking, invoking, exchanging, FollyRcu,
  FollySystem, get_ptr_step,
}
use writeboost_rcu.FollyRcu.Retirement.{Domain}
use writeboost_rcu.FollyRcu.Invariant.{
  critical, private, outgoing, CopyOk, HeldOk, Inv, HeldOk-keeps, copies_after,
}

module _ {State T : Type 0} (d : Domain State) {n : ℕ} {w : T} {s : FollySystem State T}
    (m : Inv d n w s) where
  abbrev out : ℕ → ℕ
  out p = total (outgoing p) n s.updates

  held_after :
      (i : ℕ) (r : FollyRcu State T) (pc : GetPtrPc)
      → HeldOk d r out i pc
      → ((j : ℕ) → i ≢ j → HeldOk d r out j (s.reads j))
      → (j : ℕ) → HeldOk d r out j (update s.reads i pc j)
  held_after i r pc ok others j = elim (ℕ_discrete i j) [
    | yes same ↦
        let eq : pc ≡ update s.reads i pc j = ground arith in
        subst (HeldOk d r out j) eq (subst (λ k. HeldOk d r out k pc) same ok)
    | no apart ↦
        let eq : s.reads j ≡ update s.reads i pc j = ground arith in
        subst (HeldOk d r out j) eq (others j apart)
  ]

  pub read-Inv :
      (i : ℕ) (pc : GetPtrPc)
      → s.reads i ≡ pc
      → Inv d n w (record {
        rcu = (get_ptr_step d i s.rcu pc).0;
        reads = update s.reads i (get_ptr_step d i s.rcu pc).1;
        updates = s.updates;
      })
  unfolding get_ptr_step
  read-Inv i outside e = record {
    owned = λ p. ground (arith, m.owned p, d.lock_retired i p s.domain);
    mutex = m.mutex;
    value = m.value;
    copies = m.copies;
    held =
        held_after i (record s.rcu { domain = d.lock i s.domain }) entered
          (d.lock_inside i s.domain)
          (λ j apart.
            HeldOk-keeps d s.rcu (record s.rcu { domain = d.lock i s.domain }) out out j (s.reads j)
              (d.lock_other i j s.domain)
              (λ p inside live. ground (arith, live, d.lock_waits i j p s.domain)) (m.held j));
  }
  read-Inv i entered e = record {
    owned = m.owned;
    mutex = m.mutex;
    value = m.value;
    copies = m.copies;
    held =
        held_after i s.rcu (holding s.ptr) (subst (HeldOk d s.rcu out i) e (m.held i), ground arith)
          (λ j apart. m.held j);
  }
  read-Inv i (holding q) e = record {
    owned = λ p. ground (arith, m.owned p, d.unlock_retired i p s.domain);
    mutex = m.mutex;
    value = m.value;
    copies = m.copies;
    held =
        held_after i (record s.rcu { domain = d.unlock i s.domain }) outside tt
          (λ j apart.
            HeldOk-keeps d s.rcu (record s.rcu { domain = d.unlock i s.domain }) out out j
              (s.reads j) (d.unlock_other i j s.domain apart)
              (λ p inside live. ground (arith, live, d.unlock_waits i j p s.domain apart))
              (m.held j));
  }

  pub call-Inv :
      (i : ℕ) (f : T → T)
      → i < n
      → s.updates i ≡ idle
      → Inv d n w (record s { updates = update s.updates i (locking f) })
  call-Inv i f lt e = record {
    owned = λ p. ground (arith, m.owned p, moves (private p), moves (outgoing p));
    mutex = ground (arith, m.mutex, moves critical);
    value = m.value;
    copies = copies_after n i s.updates s.heap w (locking f) tt (λ k below apart. m.copies k below);
    held = λ j.
        HeldOk-keeps d s.rcu s.rcu out _ j (s.reads j) (λ x. x)
          (λ p inside live. ground (arith, moves (outgoing p))) (m.held j);
  }
    where
      moves :
          (weight : UpdatePc T → ℕ)
          → total weight n (update s.updates i (locking f)) + weight (s.updates i)
            ≡ total weight n s.updates + weight (locking f)
      moves weight = total-update weight n s.updates i (locking f) lt

  -- No thread has a copy where a deleter runs.
  copy-stays :
      (p : ℕ) {dom : State}
      → d.reclaim p s.domain ≡ some dom
      → (k : ℕ) → k < n
      → (pc : UpdatePc T) → s.updates k ≡ pc
      → CopyOk s.heap w pc
      → CopyOk (update s.heap p none) w pc
  copy-stays p {dom} e k below (invoking f q) at ok = ground (
    arith,
    ok,
    m.owned p,
    d.reclaim_retired p p s.domain dom e,
    le-total (private p) n s.updates k below,
  )
  copy-stays p {dom} e k below (exchanging f q) at ok = ground (
    arith,
    ok,
    m.owned p,
    d.reclaim_retired p p s.domain dom e,
    le-total (private p) n s.updates k below,
  )
  copy-stays p e k below _ at ok = tt

  pub reclaim-Inv :
      (p : ℕ) {dom : State}
      → d.reclaim p s.domain ≡ some dom
      → Inv d n w (record s { rcu = record s.rcu { heap = update s.heap p none; domain = dom } })
  reclaim-Inv p {dom} e = record {
    owned = λ q. ground (arith, m.owned q, d.reclaim_retired p q s.domain dom e);
    mutex = m.mutex;
    value = ground (arith, m.value, m.owned p, d.reclaim_retired p p s.domain dom e);
    copies = λ k below. copy-stays p e k below (s.updates k) refl (m.copies k below);
    held = λ j.
        HeldOk-keeps d s.rcu (record s.rcu { heap = update s.heap p none; domain = dom }) out out j
          (s.reads j) (d.reclaim_inside p j s.domain dom e)
          (λ q inside live. ground (arith, live, d.reclaim_waits p j q s.domain dom e)) (m.held j);
  }
