-- ===== src/System/Order.antt =====
-- Updates are performed in the order in which they got their turn.
use mathlib.Core.List.{reverse, reverse-append, reverse-cons, append_assoc}
use writeboost_rcu.Common.{
  ℕ, ◌<◌, ◌^◌, ◌≡◌, ◌≢◌, refl, sym, ap, subst, ◌∙◌, List, [], ◌∷◌, ◌++◌, total, total_unique,
  le-total, length, arith, ℕ_discrete,
}
use writeboost_rcu.Rcu.{Config, Rcu}
use writeboost_rcu.Threads.{
  done, WritePc, idle, enqueueing, registered, copied, working, call_step, write_step,
}
use writeboost_rcu.System.{
  System, History, Action, step, start, nothing_yet, record_step, record_write,
}
use writeboost_rcu.System.Moves.{Stepped, reads, calls, writes, step-Stepped}
use writeboost_rcu.System.Registry.{is_updater, read_step-same, Registry}
use writeboost_rcu.System.Invariant.{one_updater, write_pos}

module _ {T : Type 0} where
  -- What waits in the queue, the latest first, before what was done or is at hand.
  abbrev pub behind : List (T → T) → List (T → T) → List (T → T)
  behind queue fs = reverse queue ++ fs

  -- The updater performs its own update, then the queue's from the oldest on.
  abbrev pub OrderOk : List (T → T) → List (T → T) → List (T → T) → WritePc T → Type 0
  OrderOk accepted performed queue idle = Unit
  OrderOk accepted performed queue (enqueueing f) = Unit
  OrderOk accepted performed queue (registered f) = accepted ≡ behind queue (f ∷ performed)
  OrderOk accepted performed queue (copied f p) = accepted ≡ behind queue (f ∷ performed)
  OrderOk accepted performed queue _ = accepted ≡ behind queue performed

  behind-take : (f : T → T) (rest fs : List (T → T)) → behind (f ∷ rest) fs ≡ behind rest (f ∷ fs)
  behind-take f rest fs = simp (reverse-cons, append_assoc)

  behind-put :
      (f : T → T) (queue fs : List (T → T)) → behind (queue ++ f ∷ []) fs ≡ f ∷ behind queue fs
  behind-put f queue fs = simp (reverse-append, append_assoc)

  module _ (c : Config) (fresh : ℕ) (h : History T) (r : Rcu T) {r' : Rcu T} {pc' : WritePc T} where
    write-OrderOk :
        (pc : WritePc T)
        → write_step c fresh r pc ≡ done (r', pc')
        → OrderOk h.accepted h.performed r.update_queue pc
        → OrderOk (record_write r pc h).accepted (record_write r pc h).performed r'.update_queue pc'
    unfolding write_step
    write-OrderOk idle e ok = ground arith
    write-OrderOk (working p fin cnt unflushed) e ok = perform-OrderOk r.update_queue refl
      where
        perform-OrderOk :
            (queue : List (T → T))
            → r.update_queue ≡ queue
            → OrderOk
                (record_write r (working p fin cnt unflushed) h).accepted
                (record_write r (working p fin cnt unflushed) h).performed
                r'.update_queue
                pc'
        perform-OrderOk [] q = ground arith
        perform-OrderOk (f ∷ rest) q = ground (arith, behind-take f rest h.performed)
    write-OrderOk _ e ok = ground arith

    write-rest :
        (pc : WritePc T)
        → write_step c fresh r pc ≡ done (r', pc')
        → 0 < r.update_cnt
        → OrderOk h.accepted h.performed r.update_queue pc
        → r'.update_cnt ≡ 0
        → (record_write r pc h).accepted ≡ behind r'.update_queue (record_write r pc h).performed
    unfolding write_step
    write-rest idle e pos ok z = ground arith
    write-rest _ e pos ok z = ground arith

  not_updater :
      (accepted performed queue : List (T → T)) (pc : WritePc T)
      → is_updater pc ≡ 0
      → OrderOk accepted performed queue pc
  not_updater a p q idle z = tt
  not_updater a p q (enqueueing f) z = tt
  not_updater a p q _ z = absurd (omega arith)

  put-OrderOk :
      (f : T → T) (accepted performed queue : List (T → T)) (pc : WritePc T)
      → OrderOk accepted performed queue pc
      → OrderOk (f ∷ accepted) performed (queue ++ f ∷ []) pc
  put-OrderOk f a p q idle ok = tt
  put-OrderOk f a p q (enqueueing g) ok = tt
  put-OrderOk f a p q (registered g) ok = ap (◌∷◌ f) ok ∙ sym (behind-put f q (g ∷ p))
  put-OrderOk f a p q (copied g k) ok = ap (◌∷◌ f) ok ∙ sym (behind-put f q (g ∷ p))
  put-OrderOk f a p q _ ok = ap (◌∷◌ f) ok ∙ sym (behind-put f q p)

  -- What a step of a waiting thread does to what the updater relies on.
  waiting-OrderOk :
      (c : Config) (fresh : ℕ) (h : History T) (r : Rcu T) {r' : Rcu T} {pc' : WritePc T}
      (pc other : WritePc T)
      → write_step c fresh r pc ≡ done (r', pc')
      → is_updater pc ≡ 0
      → OrderOk h.accepted h.performed r.update_queue other
      → OrderOk (record_write r pc h).accepted (record_write r pc h).performed r'.update_queue other
  unfolding write_step
  waiting-OrderOk c fresh h r idle other e z ok = ground arith
  waiting-OrderOk c fresh h r (enqueueing f) other e z ok =
      ground (arith, put-OrderOk f h.accepted h.performed r.update_queue other ok)
  waiting-OrderOk c fresh h r _ other e z ok = absurd (ground arith)

  pub record Ordered (c : Config) (h : History T) (s : System T) : Type 0 where
    pub turn : (i : ℕ) → i < c.threads → OrderOk h.accepted h.performed s.update_queue (s.writes i)
    pub rest : s.update_cnt ≡ 0 → h.accepted ≡ behind s.update_queue h.performed

  pub start-Ordered : (c : Config) (p : ℕ) (v : T) → Ordered c nothing_yet (start p v)
  unfolding start
  start-Ordered c p v = record { turn = λ i lt. tt; rest = λ z. refl }

  pub idle_queue :
      {c : Config} {h : History T} {s : System T}
      → Registry c h s
      → s.update_cnt ≡ 0
      → (s.update_queue ≡ []) × (total is_updater c.threads s.writes ≡ 0)
  idle_queue reg z = ground (arith, reg.count.counted, reg.count.single)

  -- The first to come has its turn before anything is queued.
  first-OrderOk :
      (f : T → T) (accepted performed queue : List (T → T))
      → queue ≡ []
      → accepted ≡ behind queue performed
      → f ∷ accepted ≡ behind queue (f ∷ performed)
  first-OrderOk f a p q e ok = rw (ok, e)

  Stepped-Ordered :
      {c : Config} {h : History T} {s s' : System T} {a : Action T}
      → Stepped c s a s'
      → length (record_step s a h).calls < 2 ^ 64
      → Registry c h s
      → Ordered c h s
      → Ordered c (record_step s a h) s'
  unfolding call_step
  Stepped-Ordered {s} (reads i lt) fits reg inv =
      ground (arith, read_step-same i s.rcu (s.reads i), inv)
  Stepped-Ordered {c} {h} {s} (calls i f lt e) fits reg inv = record {
    turn = λ j l. elim (ℕ_discrete s.update_cnt 0) [
      | yes z ↦
          let (q, none_works) = idle_queue reg z in
          ground (
            arith,
            q,
            inv.rest z,
            first-OrderOk f h.accepted h.performed s.update_queue q (inv.rest z),
            not_updater (f ∷ h.accepted) h.performed s.update_queue (s.writes j)
                (omega (arith, le-total is_updater c.threads s.writes j l)),
          )
      | no nz ↦ ground (arith, inv.turn j l)
    ];
    rest = λ z. absurd (omega (arith, reg.few));
  }
  Stepped-Ordered {c} {h} {s} (writes i fresh lt {r = r} {pc = pc} e) fits reg inv = record {
    turn = λ j l. elim (ℕ_discrete i j) [
      | yes same ↦ ground (arith, write-OrderOk c fresh h s.rcu (s.writes i) e (inv.turn i lt))
      | no other ↦ ground (arith, other_turn j l other)
    ];
    rest = write-rest c fresh h s.rcu (s.writes i) e (write_pos i fresh lt e reg) (inv.turn i lt);
  }
    where
      other_turn :
          (j : ℕ)
          → j < c.threads
          → i ≢ j
          → OrderOk
              (record_write s.rcu (s.writes i) h).accepted
              (record_write s.rcu (s.writes i) h).performed
              r.update_queue
              (s.writes j)
      other_turn j l other = elim (ℕ_discrete (is_updater (s.writes i)) 0) [
        | yes z ↦ waiting-OrderOk c fresh h s.rcu (s.writes i) (s.writes j) e z (inv.turn j l)
        | no nz ↦
            not_updater (record_write s.rcu (s.writes i) h).accepted
              (record_write s.rcu (s.writes i) h).performed r.update_queue (s.writes j)
              (ground
                (arith, total_unique is_updater c.threads s.writes i j lt l (one_updater reg)))
      ]

  pub step-Ordered :
      {c : Config} {h h' : History T} {s s' : System T} (a : Action T)
      → step c s a ≡ done s'
      → h' ≡ record_step s a h
      → length h'.calls < 2 ^ 64
      → Registry c h s
      → Ordered c h s
      → Ordered c h' s'
  step-Ordered {c} {h} {s = s} {s' = s'} a e q fits reg inv =
      subst (λ k. Ordered c k s') (sym q)
        (Stepped-Ordered (step-Stepped c s a e) (subst (λ k. length k.calls < 2 ^ 64) q fits) reg
          inv)
