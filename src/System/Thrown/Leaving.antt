-- ===== src/System/Thrown/Leaving.antt =====
-- What an exception of a callback leaves behind when it leaves `update`: the count, and a copy that
-- nobody knows of.
use mathlib.Core.List.{append-nil}
use writeboost_rcu.Common.{
  ℕ, ◌+◌, ◌<◌, ◌^◌, ◌≡◌, ◌≢◌, refl, ap, sym, subst, ◌∙◌, Bool-cases, inl, inr, Option-cases, some,
  List, [], ◌∷◌, ◌++◌, ltb, ltb→lt, length, update, le-total, apply_all, arith,
}
use writeboost_rcu.Heap.{Heap, modify, allocated}
use writeboost_rcu.Rcu.{Config, Rcu, destroy}
use writeboost_rcu.Rcu.Places.{places, Owns, destroy-Owns}
use writeboost_rcu.Threads.{Outcome, done, blocked, fault, WritePc, idle, copied, working}
use writeboost_rcu.System.{System, write_from, History, Reach}
use writeboost_rcu.System.Registry.{is_updater}
use writeboost_rcu.System.Ownership.{private}
use writeboost_rcu.System.Memory.{copies, leaving}
use writeboost_rcu.System.Invariant.{Inv, Reach-Inv, one_updater}
use writeboost_rcu.System.Carried.{not_updater}
use writeboost_rcu.System.Thrown.{throws, throw_first, throw_from, throw_step, Onward}
use writeboost_rcu.System.Thrown.Stopped.{Stopped, nobody_after, Onward-Stopped}

module _ {T : Type 0} where
  -- The memory of the copy, and what the exception leaves of the rest.
  record Thrown (left : T) (r : Rcu T) (pc : WritePc T) (z : Rcu T × WritePc T) : Type 0 where
    copy : ℕ
    own : private copy pc ≡ 1
    lives : allocated (r.heap copy) ≡ 1
    updater : is_updater pc ≡ 1
    heap : z.0.heap ≡ update r.heap copy (some left)
    ptr : z.0.ptr ≡ r.ptr
    places : (q : ℕ) → places z.0 q ≡ places r q
    cnt : z.0.update_cnt ≡ r.update_cnt
    gone : z.1 ≡ idle

  first-Thrown :
      (r : Rcu T) (left : T) (p fin cnt unflushed : ℕ) (queue : List (T → T))
      {z : Rcu T × WritePc T}
      → throw_first r left p queue ≡ done z
      → Thrown left r (working p fin cnt unflushed) z
  unfolding throw_first modify
  first-Thrown r left p fin cnt unflushed [] e = absurd (ground arith)
  first-Thrown r left p fin cnt unflushed (f ∷ rest) {z} e = elim (Option-cases (r.heap p)) [
    | inl d ↦ absurd (ground arith)
    | inr (u, d) ↦
        let same : (record r { heap = update r.heap p (some left); update_queue = rest }, idle)
            ≡ z =
          ground arith in
        subst (Thrown left r (working p fin cnt unflushed)) same (record {
          copy = p;
          own = ground arith;
          lives = ground arith;
          updater = refl;
          heap = refl;
          ptr = refl;
          places = λ q. refl;
          cnt = refl;
          gone = refl;
        })
  ]

  from-Thrown :
      (r : Rcu T) (left : T) (pc : WritePc T) {z : Rcu T × WritePc T}
      → throw_from r left pc ≡ done z
      → Thrown left r pc z
  unfolding throw_from modify
  from-Thrown r left (copied f p) {z} e = elim (Option-cases (r.heap p)) [
    | inl d ↦ absurd (ground arith)
    | inr (u, d) ↦
        let same : (record r { heap = update r.heap p (some left) }, idle) ≡ z = ground arith in
        subst (Thrown left r (copied f p)) same (record {
          copy = p;
          own = ground arith;
          lives = ground arith;
          updater = refl;
          heap = refl;
          ptr = refl;
          places = λ q. refl;
          cnt = refl;
          gone = refl;
        })
  ]
  from-Thrown r left (working p fin cnt unflushed) e = elim (Bool-cases (ltb fin cnt)) [
    | inl more ↦ first-Thrown r left p fin cnt unflushed r.update_queue (ground arith)
    | inr all ↦ absurd (ground arith)
  ]
  from-Thrown r left _ e = absurd (ground arith)

  at_thrower :
      (c : Config) (s : System T) (i : ℕ) (left : T) {s' : System T}
      (o : Outcome (Rcu T × WritePc T))
      → throw_from s.rcu left (s.writes i) ≡ o
      → write_from c s i 0 o ≡ done s'
      → (z : Rcu T × WritePc T) × Thrown left s.rcu (s.writes i) z
        × (s' ≡ record s { rcu = z.0; writes = update s.writes i z.1 })
  unfolding write_from
  at_thrower c s i left (done z) q e = (z, from-Thrown s.rcu left (s.writes i) q, ground arith)
  at_thrower c s i left blocked q e = absurd (ground arith)
  at_thrower c s i left fault q e = absurd (ground arith)

  thrower :
      (c : Config) (s : System T) (i : ℕ) (left : T) {s' : System T}
      → throw_step c s (throws i left) ≡ done s'
      → (i < c.threads)
        × ((z : Rcu T × WritePc T) × Thrown left s.rcu (s.writes i) z
            × (s' ≡ record s { rcu = z.0; writes = update s.writes i z.1 }))
  unfolding throw_step
  thrower c s i left {s'} e = elim (Bool-cases (ltb i c.threads)) [
    | inl h ↦ (ltb→lt _ _ h, at_thrower c s i left {s' = s'} _ refl (ground arith))
    | inr h ↦ absurd (ground arith)
  ]

  -- The copy is the updater's own.
  hidden :
      {c : Config} {v : T} {h : History T} {s : System T} (i p : ℕ)
      → Inv c v h s
      → i < c.threads
      → private p (s.writes i) ≡ 1
      → allocated (s.heap p) ≡ 1
      → places s.rcu p ≡ 0
  hidden {c} {s = s} i p inv lt own lives =
      omega (arith, inv.memory.owned p, le-total (private p) c.threads s.writes i lt)

  after_throw :
      {c : Config} {v : T} {h : History T} {s : System T} {left : T} {z : Rcu T × WritePc T} (i : ℕ)
      → Inv c v h s
      → i < c.threads
      → Thrown left s.rcu (s.writes i) z
      → Stopped c
          (record s { rcu = z.0; writes = update s.writes i z.1 })
          0
          (record s { rcu = z.0; writes = update s.writes i z.1 })
  after_throw {c} {s = s} {z = z} i inv lt x = record {
    heap = refl;
    ptr = refl;
    places = λ q. refl;
    pos = ground (
      arith,
      x.cnt,
      x.updater,
      inv.registry.count.single,
      le-total is_updater c.threads s.writes i lt,
    );
    few = omega arith;
    queue = ([], sym (append-nil z.0.update_queue));
    nobody = nobody_after c s.writes i z.1 (ap is_updater x.gone) (λ j below apart.
        not_updater c s i j lt below (λ e. apart (sym e)) (one_updater inv.registry)
          (omega (arith, x.updater)));
  }

  -- What is left in `t`, where the exception led to `s`: the published object, a queue that only grows,
  -- no updater, and a copy that holds `left` and that the destructor does not delete.
  abbrev pub Abandoned : Config → List (T → T) → T → T → System T → System T → Type 0
  Abandoned c published v left s t =
      (t.heap t.ptr ≡ some (apply_all published v))
      × ((late : List (T → T)) × (t.update_queue ≡ s.update_queue ++ late))
      × ((j : ℕ) → j < c.threads → is_updater (t.writes j) ≡ 0)
      × ((p : ℕ) × (t.heap p ≡ some left)
          × ((heap : Heap T) × (destroy t.rcu ≡ some heap) × (heap p ≡ some left)))

  unplaced-ne-ptr : (r : Rcu T) (p : ℕ) → places r p ≡ 0 → r.ptr ≢ p
  unplaced-ne-ptr r p away e = ground arith

  -- The destructor runs through, and passes over the copy.
  leaked :
      (r k : Rcu T) (own : ℕ → ℕ) (p : ℕ) (left : T)
      → Owns own r
      → allocated (r.heap p) ≡ 1
      → places r p ≡ 0
      → k.heap ≡ update r.heap p (some left)
      → ((q : ℕ) → places k q ≡ places r q)
      → (heap : Heap T) × (destroy k ≡ some heap) × (heap p ≡ some left)
  leaked r k own p left all lives away heap same =
      let (h, e, rest, kept) =
        destroy-Owns k own (λ q. ground (arith, all q, lives, heap, same q)) in
      (h, e, kept p (same p ∙ away) ∙ ground (arith, heap))

  Thrown-Abandoned :
      {c : Config} {v : T} {h : History T} {s : System T} {left : T} {z : Rcu T × WritePc T} {n : ℕ}
      {t : System T} (i : ℕ)
      → Inv c v h s
      → i < c.threads
      → Thrown left s.rcu (s.writes i) z
      → Stopped c (record s { rcu = z.0; writes = update s.writes i z.1 }) n t
      → Abandoned c h.published v left (record s { rcu = z.0; writes = update s.writes i z.1 }) t
  Thrown-Abandoned {c} {v} {s = s} {left = left} {t = t} i inv lt x m =
      let away = hidden i x.copy inv lt x.own x.lives in
      let apart = unplaced-ne-ptr s.rcu x.copy away in
      let heap : t.heap ≡ update s.heap x.copy (some left) = m.heap ∙ x.heap in
      let same : t.heap t.ptr ≡ s.heap s.ptr =
        ap (λ (k : Heap T). k t.ptr) heap ∙ ground (arith, m.ptr ∙ x.ptr, apart) in
      (
        same ∙ inv.values.visible,
        m.queue,
        m.nobody,
        (
          x.copy,
          ground (arith, heap),
          leaked s.rcu t.rcu (λ q. copies c s q + leaving c s q) x.copy left
              (λ q. omega (arith, inv.memory.owned q)) x.lives away heap
              (λ q. m.places q ∙ x.places q),
        ),
      )

  -- Let the callback that the updater runs, its own or one from the queue, throw when it has made `left`
  -- of the copy, and let any steps follow, with fewer than 2^64 calls of `update` in all. Then there is
  -- no updater, and no update that was not yet published becomes visible: `m_ptr` leads to the object
  -- of before, and the entries of the queue stay there and later calls only join them. The copy still
  -- holds `left`, and the destructor, run then, leaves it in memory.
  pub thrown_stops :
      {c : Config} {p₀ : ℕ} {v : T} {h : History T} {s s' : System T} {fs : List (T → T)}
      {t : System T} (i : ℕ) (left : T)
      → Reach c p₀ v h s
      → throw_step c s (throws i left) ≡ done s'
      → Onward c s' fs t
      → length h.calls + length fs < 2 ^ 64
      → Abandoned c h.published v left s' t
  thrown_stops {c} {v = v} {h = h} {s = s} {s' = s'} {fs = fs} {t = t} i left r e w fits =
      let inv = Reach-Inv r (omega arith) in
      let (lt, (z, x, same)) = thrower c s i left {s' = s'} e in
      let w' = subst (λ k. Onward c k fs t) same w in
      let few : z.0.update_cnt + length fs < 2 ^ 64 = omega (arith, inv.registry.few, x.cnt) in
      let end = Onward-Stopped (after_throw i inv lt x) w' few in
      subst (λ k. Abandoned c h.published v left k t) (sym same) (Thrown-Abandoned i inv lt x end)
