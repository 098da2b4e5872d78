-- ===== src/System/Carried.antt =====
-- What holds of the updater wherever it stands: a property of its place, of what was performed and
-- published and of `m_updateCnt` that the updater's own steps keep holds in every reachable state.
use writeboost_rcu.Common.{
  ℕ, ◌+◌, ◌≤◌, ◌<◌, ◌^◌, ◌≡◌, ◌≢◌, refl, ap, sym, subst, List, [], length, total, total_unique,
  ℕ_discrete, arith,
}
use writeboost_rcu.Rcu.{Config, Rcu}
use writeboost_rcu.Threads.{done, WritePc, idle, enqueueing, call_step, write_step}
use writeboost_rcu.System.{
  System, History, Action, record_write, record_step, start, nothing_yet, Reach, begin, later,
}
use writeboost_rcu.System.Moves.{Stepped, reads, calls, writes, step-Stepped}
use writeboost_rcu.System.Registry.{is_updater, calls-le, read_step-same, record_write-calls}
use writeboost_rcu.System.Values.{write_waiting}
use writeboost_rcu.System.Invariant.{Inv, Reach-Inv, one_updater}

-- The property is asked of the performed and the published updates, the count and a place.
pub record Carried {T : Type 0} (c : Config)
    (P : List (T → T) → List (T → T) → ℕ → WritePc T → Type 0) : Type 0 where
  pub waiting :
      (performed published : List (T → T)) (n : ℕ) (pc : WritePc T)
      → is_updater pc ≡ 0
      → P performed published n pc
  pub own :
      (fresh : ℕ) (h : History T) (r : Rcu T) {r' : Rcu T} {pc' : WritePc T} (pc : WritePc T)
      → write_step c fresh r pc ≡ done (r', pc')
      → r.update_cnt < 2 ^ 64
      → P h.performed h.published r.update_cnt pc
      → P (record_write r pc h).performed (record_write r pc h).published r'.update_cnt pc'
  pub asked :
      (performed published : List (T → T)) (n : ℕ) (pc : WritePc T)
      → P performed published n pc
      → P performed published (n + 1) pc
  pub called :
      (f : T → T) (performed published : List (T → T)) (r : Rcu T)
      → (r.update_cnt ≡ 0 → performed ≡ published)
      → P performed published (r.update_cnt + 1) (call_step f r).1

module _ {T : Type 0} where
  -- Where one thread is the updater, another one is not.
  pub not_updater :
      (c : Config) (s : System T) (i j : ℕ)
      → i < c.threads
      → j < c.threads
      → i ≢ j
      → total is_updater c.threads s.writes ≤ 1
      → is_updater (s.writes i) ≢ 0
      → is_updater (s.writes j) ≡ 0
  not_updater c s i j li lj apart one e = elim (ℕ_discrete (is_updater (s.writes j)) 0) [
    | yes z ↦ z
    | no nz ↦ absurd (
        apart
          (total_unique is_updater c.threads s.writes i j li lj one (omega arith) (omega arith)))
  ]

  pub waiting-count :
      (c : Config) (fresh : ℕ) (r : Rcu T) {r' : Rcu T} {pc' : WritePc T} (pc : WritePc T)
      → write_step c fresh r pc ≡ done (r', pc')
      → is_updater pc ≡ 0
      → r'.update_cnt ≡ r.update_cnt
  unfolding write_step
  waiting-count c fresh r idle e z = ground arith
  waiting-count c fresh r (enqueueing f) e z = ground arith
  waiting-count c fresh r _ e z = absurd (ground arith)

  call-count :
      (f : T → T) (r : Rcu T)
      → r.update_cnt + 1 < 2 ^ 64
      → (call_step f r).0.update_cnt ≡ r.update_cnt + 1
  unfolding call_step
  call-count f r fits = ground arith

  module _ {c : Config} {P : List (T → T) → List (T → T) → ℕ → WritePc T → Type 0}
      (law : Carried c P) where
    abbrev Everywhere : History T → System T → Type 0
    Everywhere h s = (i : ℕ) → i < c.threads → P h.performed h.published s.update_cnt (s.writes i)

    Stepped-Everywhere :
        {v : T} {h : History T} {s s' : System T} {a : Action T}
        → Stepped c s a s'
        → length (record_step s a h).calls < 2 ^ 64
        → Inv c v h s
        → Everywhere h s
        → Everywhere (record_step s a h) s'
    Stepped-Everywhere {h = h} {s = s} (reads i lt) fits inv all =
        λ j below. ground (arith, all j below, read_step-same i s.rcu (s.reads i))
    Stepped-Everywhere {h = h} {s = s} (calls i f lt e) fits inv all = λ j below.
        let grown = call-count f s.rcu (omega (arith, inv.registry.few)) in
        elim (ℕ_discrete i j) [
          | yes same ↦
              ground (arith, grown, law.called f h.performed h.published s.rcu inv.values.quiet)
          | no apart ↦ ground (
            arith,
            grown,
            law.asked h.performed h.published s.update_cnt (s.writes j) (all j below),
          )
        ]
    Stepped-Everywhere {v = v} {h = h} {s = s} (writes i fresh lt {r = r} {pc = pc} e) fits inv
          all =
        λ j below.
          let few : s.update_cnt < 2 ^ 64 =
            omega (arith, inv.registry.few, ap length (record_write-calls s.rcu (s.writes i) h)) in
          elim (ℕ_discrete i j) [
            | yes same ↦ ground (arith, law.own fresh h s.rcu (s.writes i) e few (all i lt))
            | no apart ↦ elim (ℕ_discrete (is_updater (s.writes i)) 0) [
              | yes z ↦
                  let (heap, performed, published) =
                    write_waiting v c fresh h s.rcu (s.writes i) e z in
                  let count = waiting-count c fresh s.rcu (s.writes i) e z in
                  ground (arith, all j below, performed, published, count)
              | no nz ↦ ground (
                arith,
                law.waiting (record_write s.rcu (s.writes i) h).performed
                    (record_write s.rcu (s.writes i) h).published r.update_cnt (s.writes j)
                    (not_updater c s i j lt below apart (one_updater inv.registry) nz),
              )
            ]
          ]

    start-Everywhere : (p : ℕ) (v : T) → Everywhere nothing_yet (start p v)
    unfolding start
    start-Everywhere p v i lt = law.waiting [] [] 0 idle refl

    pub Reach-Everywhere :
        {p₀ : ℕ} {v : T} {h : History T} {s : System T}
        → Reach c p₀ v h s
        → length h.calls < 2 ^ 64
        → (i : ℕ) → i < c.threads
        → P h.performed h.published s.update_cnt (s.writes i)
    Reach-Everywhere {p₀} {v} begin fits = start-Everywhere p₀ v
    Reach-Everywhere (later {h = h} {s = s} {s' = s'} r a ok e q) fits =
        let few : length h.calls < 2 ^ 64 = omega (arith, calls-le h s a q) in
        subst (λ k. Everywhere k s') (sym q)
          (Stepped-Everywhere (step-Stepped c s a e) (subst (λ k. length k.calls < 2 ^ 64) q fits)
            (Reach-Inv r few) (Reach-Everywhere r few))
