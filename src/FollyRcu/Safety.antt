-- ===== src/FollyRcu/Safety.antt =====
-- What `follyrcu_protected` promises its users, whatever the domain, as long as it keeps its promises.
use writeboost_rcu.Common.{
  ℕ, ◌<◌, ◌≡◌, ◌≢◌, refl, subst, ◌∙◌, Option, none, some, Option-cases, List, ltb, ltb→lt,
  Bool-cases, inl, inr, apply_all, total, le-total, arith,
}
use writeboost_rcu.Heap.{allocated, free}
use writeboost_rcu.Heap.Free.{allocated-some, free-some}
use writeboost_rcu.Threads.{Outcome, done, blocked, fault}
use writeboost_rcu.FollyRcu.{
  GetPtrPc, outside, entered, holding, UpdatePc, idle, copying, invoking, FollyRcu, FollySystem,
  FollyAction, reads_on, calls, updates_on, reclaims, update_step, folly_step, New, FollyReach,
}
use writeboost_rcu.FollyRcu.Retirement.{Domain}
use writeboost_rcu.FollyRcu.Moves.{
  Moved, locks, copies, invokes, exchanges, unlocks, retires, update_step-Moved,
}
use writeboost_rcu.FollyRcu.Invariant.{private, outgoing, CopyOk, HeldOk, Inv}
use writeboost_rcu.FollyRcu.Reachable.{FollyReach-Inv}

module _ {State T : Type 0} (d : Domain State) (n : ℕ) {w : T} (s : FollySystem State T)
    (m : Inv d n w s) where
  held_live : (j p : ℕ) → s.reads j ≡ holding p → 0 < allocated (s.heap p)
  held_live j p at =
      let (inside, live) =
        subst (HeldOk d s.rcu (λ q. total (outgoing q) n s.updates) j) at (m.held j) in
      elim (Bool-cases (d.waits s.domain j p)) [
        | inl waited ↦ ground (arith, m.owned p, d.waits_retired j p s.domain waited)
        | inr free ↦ ground (arith, live, m.owned p)
      ]

  -- What a step in `update` does to memory where an object lives that no thread has as its copy.
  update_keeps :
      (i fresh p : ℕ) {pc : UpdatePc T} {z : FollyRcu State T × UpdatePc T}
      → i < n
      → s.heap fresh ≡ none
      → s.updates i ≡ pc
      → 0 < allocated (s.heap p)
      → total (private p) n s.updates ≡ 0
      → Moved d fresh s.rcu pc z
      → z.0.heap p ≡ s.heap p
  update_keeps i fresh p lt new at live apart (locks f l) = refl
  update_keeps i fresh p lt new at live apart (copies f v l) = ground (arith, new)
  update_keeps i fresh p lt new at live apart (invokes f q v l) =
      ground (arith, le-total (private p) n s.updates i lt)
  update_keeps i fresh p lt new at live apart (exchanges f q) = refl
  update_keeps i fresh p lt new at live apart (unlocks old) = refl
  update_keeps i fresh p lt new at live apart (retires old) = refl

  held_apart : (j p : ℕ) → s.reads j ≡ holding p → total (private p) n s.updates ≡ 0
  held_apart j p at =
      let (inside, live) =
        subst (HeldOk d s.rcu (λ q. total (outgoing q) n s.updates) j) at (m.held j) in
      elim (Bool-cases (d.waits s.domain j p)) [
        | inl waited ↦ ground (arith, m.owned p, d.waits_retired j p s.domain waited)
        | inr free ↦ ground (arith, live, m.owned p)
      ]

  reclaim_apart :
      (j p q : ℕ) {dom : State} → s.reads j ≡ holding p → d.reclaim q s.domain ≡ some dom → p ≢ q
  reclaim_apart j p q {dom} at e same =
      let (inside, live) =
        subst (HeldOk d s.rcu (λ k. total (outgoing k) n s.updates) j) at (m.held j) in
      elim (Bool-cases (d.waits s.domain j p)) [
        | inl waited ↦
            let stop =
              subst (λ k. d.reclaim k s.domain ≡ none) same (d.waits_reclaim j p s.domain waited) in
            absurd (ground arith)
        | inr free ↦ absurd (ground (arith, live, m.owned p, d.reclaim_retired q p s.domain dom e))
      ]

  update_safe :
      (i fresh : ℕ) (pc : UpdatePc T)
      → i < n
      → s.updates i ≡ pc
      → update_step d fresh s.rcu pc ≢ fault
  unfolding update_step
  update_safe i fresh (copying f) lt at e = ground (arith, m.value)
  update_safe i fresh (invoking f p) lt at e =
      let mine = subst (CopyOk s.heap w) at (m.copies i lt) in ground (arith, mine)
  update_safe i fresh _ lt at e = ground arith

  reclaim_safe :
      (p : ℕ) (o : Option State) → d.reclaim p s.domain ≡ o → folly_step d n s (reclaims p) ≢ fault
  unfolding folly_step
  reclaim_safe p none q e = ground arith
  reclaim_safe p (some dom) q e =
      let (u, live) =
        allocated-some (s.heap p)
          (ground (arith, m.owned p, d.reclaim_retired p p s.domain dom q)) in
      let freed = free-some s.heap p live in ground (arith, freed)

  updates_safe :
      (i fresh : ℕ) (o : Outcome (FollyRcu State T × UpdatePc T))
      → update_step d fresh s.rcu (s.updates i) ≡ o
      → folly_step d n s (updates_on i fresh) ≢ fault
  unfolding folly_step
  updates_safe i fresh (done z) q e = ground arith
  updates_safe i fresh blocked q e = ground arith
  updates_safe i fresh fault q e = elim (Bool-cases (ltb i n)) [
    | inl h ↦ update_safe i fresh (s.updates i) (ltb→lt _ _ h) refl q
    | inr h ↦ ground arith
  ]

  calls_safe :
      (i : ℕ) (f : T → T) (pc : UpdatePc T)
      → s.updates i ≡ pc
      → folly_step d n s (calls i f) ≢ fault
  unfolding folly_step
  calls_safe i f idle at e = ground arith
  calls_safe i f _ at e = ground arith

  step-safe : (a : FollyAction T) → folly_step d n s a ≢ fault
  unfolding folly_step
  step-safe (reads_on i) e = ground arith
  step-safe (calls i f) e = calls_safe i f (s.updates i) refl e
  step-safe (updates_on i fresh) e = updates_safe i fresh _ refl e
  step-safe (reclaims p) e = reclaim_safe p _ refl e

  module _ (j p : ℕ) (at : s.reads j ≡ holding p) {s' : FollySystem State T} where
    updates_keep :
        (i fresh : ℕ) (o : Outcome (FollyRcu State T × UpdatePc T))
        → s.heap fresh ≡ none
        → update_step d fresh s.rcu (s.updates i) ≡ o
        → folly_step d n s (updates_on i fresh) ≡ done s'
        → s'.heap p ≡ s.heap p
    unfolding folly_step
    updates_keep i fresh (done z) new q e = elim (Bool-cases (ltb i n)) [
      | inl h ↦
          let same =
            update_keeps i fresh p (ltb→lt _ _ h) new refl (held_live j p at) (held_apart j p at)
              (update_step-Moved d fresh s.rcu (s.updates i) q) in
          ground (arith, same)
      | inr h ↦ absurd (ground arith)
    ]
    updates_keep i fresh blocked new q e = absurd (ground arith)
    updates_keep i fresh fault new q e = absurd (ground arith)

    reclaim_keeps :
        (q : ℕ) (o : Option State)
        → d.reclaim q s.domain ≡ o
        → folly_step d n s (reclaims q) ≡ done s'
        → s'.heap p ≡ s.heap p
    unfolding folly_step free
    reclaim_keeps q none r e = absurd (ground arith)
    reclaim_keeps q (some dom) r e =
        let apart = reclaim_apart j p q at r in
        elim (Option-cases (s.heap q)) [
          | inl gone ↦ absurd (ground arith)
          | inr (u, live) ↦ ground (arith, apart)
        ]

    calls_keep :
        (i : ℕ) (f : T → T) (pc : UpdatePc T)
        → s.updates i ≡ pc
        → folly_step d n s (calls i f) ≡ done s'
        → s'.heap p ≡ s.heap p
    unfolding folly_step
    calls_keep i f idle q e = ground arith
    calls_keep i f _ q e = ground arith

    reads_keep :
        (i : ℕ) (pc : GetPtrPc)
        → s.reads i ≡ pc
        → folly_step d n s (reads_on i) ≡ done s'
        → s'.heap p ≡ s.heap p
    unfolding folly_step
    reads_keep i outside q e = ground arith
    reads_keep i entered q e = ground arith
    reads_keep i (holding k) q e = ground arith

    step-keeps :
        (a : FollyAction T) → New d s a → folly_step d n s a ≡ done s' → s'.heap p ≡ s.heap p
    step-keeps (reads_on i) new e = reads_keep i (s.reads i) refl e
    step-keeps (calls i f) new e = calls_keep i f (s.updates i) refl e
    step-keeps (updates_on i fresh) new e = updates_keep i fresh _ new refl e
    step-keeps (reclaims q) new e = reclaim_keeps q _ refl e

module _ {State T : Type 0} (d : Domain State) (n : ℕ) {p₀ : ℕ} {v : T} {fs : List (T → T)}
    {s : FollySystem State T} (r : FollyReach d n p₀ v fs s) where
  -- In every state that some interleaving of the threads and the domain leads to, `ptr_` leads to the
  -- initial object after the published updates in order, and no step uses or deletes memory that
  -- holds no object.
  pub folly_published :
      (s.heap s.ptr ≡ some (apply_all fs v)) × ((a : FollyAction T) → folly_step d n s a ≢ fault)
  folly_published = let m = FollyReach-Inv d n r in (m.value, step-safe d n s m)

  -- While a thread holds a pointer of `get_ptr` there is an object behind it, and no step of a thread
  -- or of the domain changes or deletes it, where an allocation returns unused memory.
  pub folly_reader_keeps :
      (j p : ℕ) {s' : FollySystem State T}
      → s.reads j ≡ holding p
      → (a : FollyAction T) → New d s a
      → folly_step d n s a ≡ done s'
      → (u : T) × (s.heap p ≡ some u) × (s'.heap p ≡ some u)
  folly_reader_keeps j p {s'} at a new e =
      let m = FollyReach-Inv d n r in
      let (u, live) = allocated-some (s.heap p) (held_live d n s m j p at) in
      (u, live, step-keeps d n s m j p at {s' = s'} a new e ∙ live)
