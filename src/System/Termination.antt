-- ===== src/System/Termination.antt =====
-- Threads that are in `update` come to its end: the work ahead falls with each step, and can be
-- done.

use native.Mathlib.Nat.{add-mul, mul-le-mul_right}
use writeboost_rcu.Common.{
  ℕ, ◌+◌, ◌*◌, ◌^◌, ◌≤◌, ◌<◌, ◌≡◌, ◌⊎◌, ℕ_discrete, inl, inr, refl, ap, sym, subst, ◌∙◌, length,
  update, total, total-update, total_zero, total_bound, le-total, arith, none,
}
use writeboost_rcu.Rcu.{Config}
use writeboost_rcu.Threads.{done, WritePc, idle, enqueueing}
use writeboost_rcu.System.{System, History, read, write, step, Reach, later, record_step}
use writeboost_rcu.System.Moves.{Stepped, reads, writes, step-Stepped}
use writeboost_rcu.System.Registry.{
  weight, is_updater, Registry, step-Registry, read_step-same, record_write-calls,
}
use writeboost_rcu.System.Invariant.{Reach-Inv, one_updater}
use writeboost_rcu.System.Progress.{progress}
use writeboost_rcu.System.Waiting.{Informed, Reach-Informed, write-CountOk}
use writeboost_rcu.System.Effort.{effort, share, share_lem, write-effort, effort-le}

module _ {T : Type 0} where
  -- The steps that all threads together have ahead of them, at most.
  pub work : Config → System T → ℕ
  work c s = total (effort c.threads s.update_cnt) c.threads s.writes

  idle-effort :
      (n u : ℕ) (pc : WritePc T) → weight pc ≡ 0 → is_updater pc ≤ weight pc → effort n u pc ≡ 0
  idle-effort n u idle z g = refl
  idle-effort n u (enqueueing f) z g = absurd (omega arith)
  idle-effort n u _ z g = absurd (omega arith)

  outside_update : (pc : WritePc T) → weight pc ≡ 0 → is_updater pc ≤ weight pc → pc ≡ idle
  outside_update idle z g = refl
  outside_update (enqueueing f) z g = absurd (omega arith)
  outside_update _ z g = absurd (omega arith)

  all_idle :
      {c : Config} {h : History T} {s : System T}
      → s.update_cnt ≡ 0
      → Registry c h s
      → (j : ℕ) → j < c.threads
      → s.writes j ≡ idle
  all_idle {c} {s = s} z reg j lt =
      outside_update (s.writes j)
        (omega (arith, le-total weight c.threads s.writes j lt, reg.count.counted))
        (reg.progressed j)

  -- When the count is 0, nothing is left to do.
  settled-work :
      {c : Config} {h : History T} {s : System T} → Registry c h s → s.update_cnt ≡ 0 → work c s ≡ 0
  unfolding work
  settled-work {c} {s = s} reg z =
      total_zero (effort c.threads s.update_cnt) c.threads s.writes (λ j lt.
        idle-effort c.threads s.update_cnt (s.writes j)
          (omega (arith, le-total weight c.threads s.writes j lt, reg.count.counted))
          (reg.progressed j))

  Stepped-work :
      {c : Config} {i fresh : ℕ} {h' : History T} {s s' : System T}
      → Stepped c s (write i fresh) s'
      → Informed c s
      → s.update_cnt < 2 ^ 64
      → Registry c h' s'
      → work c s' < work c s
  unfolding work
  Stepped-work {c} {s = s} (writes i fresh lt {r = r} {pc = pc} e) inf few after =
      let nearer = write-effort c fresh s.rcu (s.writes i) e few (inf i lt) in
      let moves = total-update (effort c.threads s.update_cnt) c.threads s.writes i pc lt in
      elim (write-CountOk c fresh s.rcu (s.writes i) e few (inf i lt)).1 [
        | inl kept ↦
            subst
              (λ u.
                total (effort c.threads u) c.threads (update s.writes i pc)
                < total (effort c.threads s.update_cnt) c.threads s.writes)
              (sym kept) (omega (arith, nearer, moves))
        | inr (updater, reset) ↦ omega (
          arith,
          settled-work after reset,
          nearer,
          le-total (effort c.threads s.update_cnt) c.threads s.writes i lt,
        )
      ]

  read-work :
      {c : Config} {i : ℕ} {s s' : System T} → Stepped c s (read i) s' → work c s' ≡ work c s
  unfolding work
  read-work {c} {s = s} (reads i lt) = ground (arith, read_step-same i s.rcu (s.reads i))

  -- Steps of readers and of threads in `update`, with no further call.
  pub data Settling (c : Config) (h : History T) (s : System T)
      : History T → System T → Type 0 where
    here : Settling c h s h s
    read_next :
        {k : History T} {t t' : System T}
        → Settling c h s k t
        → (i : ℕ) → step c t (read i) ≡ done t'
        → Settling c h s k t'
    write_next :
        {k k' : History T} {t t' : System T}
        → Settling c h s k t
        → (i fresh : ℕ) → t.heap fresh ≡ none
        → step c t (write i fresh) ≡ done t'
        → k' ≡ record_step t (write i fresh) k
        → Settling c h s k' t'

  -- How many of the steps are in `update`.
  pub updates_taken :
      {c : Config} {h : History T} {s : System T} {k : History T} {t : System T}
      → Settling c h s k t
      → ℕ
  updates_taken here = 0
  updates_taken (read_next w i e) = updates_taken w
  updates_taken (write_next w i fresh ok e q) = updates_taken w + 1

  pub Settling-Reach :
      {c : Config} {p₀ : ℕ} {v : T} {h : History T} {s : System T} {k : History T} {t : System T}
      → Reach c p₀ v h s
      → Settling c h s k t
      → Reach c p₀ v k t
  Settling-Reach r here = r
  Settling-Reach r (read_next w i e) = later (Settling-Reach r w) (read i) tt e refl
  Settling-Reach r (write_next w i fresh ok e q) = later (Settling-Reach r w) (write i fresh) ok e q

  pub Settling-calls :
      {c : Config} {h : History T} {s : System T} {k : History T} {t : System T}
      → Settling c h s k t
      → k.calls ≡ h.calls
  Settling-calls here = refl
  Settling-calls (read_next w i e) = Settling-calls w
  Settling-calls (write_next {k = k} {t = t} w i fresh ok e q) =
      ap (λ j. j.calls) q ∙ record_write-calls t.rcu (t.writes i) k ∙ Settling-calls w

  pub step-work :
      {c : Config} {p₀ : ℕ} {v : T} {h h' : History T} {s s' : System T} (i fresh : ℕ)
      → Reach c p₀ v h s
      → length h.calls < 2 ^ 64
      → step c s (write i fresh) ≡ done s'
      → h' ≡ record_step s (write i fresh) h
      → length h'.calls < 2 ^ 64
      → work c s' < work c s
  step-work {c} {s = s} i fresh r fits e q fits' =
      let reg = (Reach-Inv r fits).registry in
      Stepped-work (step-Stepped c s (write i fresh) e) (Reach-Informed r fits)
        (omega (arith, reg.few)) (step-Registry (write i fresh) e q fits' reg)

  Settling-work :
      {c : Config} {p₀ : ℕ} {v : T} {h : History T} {s : System T} {k : History T} {t : System T}
      → Reach c p₀ v h s
      → length h.calls < 2 ^ 64
      → (w : Settling c h s k t) → updates_taken w + work c t ≤ work c s
  unfolding updates_taken
  Settling-work r fits here = omega arith
  Settling-work {c} r fits (read_next {t = t} w i e) =
      omega (arith, Settling-work r fits w, read-work (step-Stepped c t (read i) e))
  Settling-work r fits (write_next {k = k} {k' = k'} {t = t} w i fresh ok e q) =
      let all = write_next w i fresh ok e q in
      omega (
        arith,
        Settling-work r fits w,
        step-work i fresh (Settling-Reach r w) (omega (arith, ap length (Settling-calls w))) e q
            (omega (arith, ap length (Settling-calls all))),
      )

  steps_bound :
      {c : Config} {p₀ : ℕ} {v : T} {h : History T} {s : System T} {k : History T} {t : System T}
      → Reach c p₀ v h s
      → length h.calls < 2 ^ 64
      → (w : Settling c h s k t)
      → updates_taken w ≤ (s.update_cnt + 1) * (c.threads + 30) + c.threads
  unfolding work
  steps_bound {c} {s = s} r fits w = omega (
    arith,
    Settling-work r fits w,
    total_bound (effort c.threads s.update_cnt) is_updater
        (share c.threads s.update_cnt + (c.threads + 25)) s.writes
        (effort-le c.threads s.update_cnt) c.threads,
    mul-le-mul_right (share c.threads s.update_cnt + (c.threads + 25))
        (one_updater (Reach-Inv r fits).registry),
    share_lem c.threads s.update_cnt,
    add-mul s.update_cnt 1 (c.threads + 30),
  )

  -- From a state that is reached by fewer than 2^64 calls of `update`, on a machine with at least one
  -- hardware thread, however the threads go on, as long as no further call arrives: the steps that they
  -- take in `update` are not more than (calls + 1) * (threads + 30) + threads, with the calls that are
  -- counted in `m_updateCnt`; and where they have come to, either all these calls are done, the count
  -- being 0 and each thread out of `update`, or some thread in `update` can take a step, whatever
  -- `new` returns.
  pub updates_end :
      {c : Config} {p₀ : ℕ} {v : T} {h : History T} {s : System T} {k : History T} {t : System T}
      (fresh : ℕ)
      → Reach c p₀ v h s
      → length h.calls < 2 ^ 64
      → 0 < c.hardware_concurrency
      → (w : Settling c h s k t)
      → (updates_taken w ≤ (s.update_cnt + 1) * (c.threads + 30) + c.threads)
        × (((t.update_cnt ≡ 0) × ((j : ℕ) → j < c.threads → t.writes j ≡ idle))
            ⊎ ((i : ℕ) × (i < c.threads) × (t' : System T) × (step c t (write i fresh) ≡ done t')))
  updates_end {c} {k = k} {t = t} fresh r fits room w =
      let r' = Settling-Reach r w in
      let fits' : length k.calls < 2 ^ 64 = omega (arith, ap length (Settling-calls w)) in
      (
        steps_bound r fits w,
        elim (ℕ_discrete t.update_cnt 0) [
          | yes z ↦ inl (z, all_idle z (Reach-Inv r' fits').registry)
          | no busy ↦ inr (progress r' fits' room (omega arith) fresh)
        ],
      )
