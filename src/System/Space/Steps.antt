-- ===== src/System/Space/Steps.antt =====
-- What a step in `update` does to the lengths of the lists.
use writeboost_rcu.Common.{
  ℕ, ◌+◌, ◌≤◌, ◌<◌, ◌≡◌, ◌⊎◌, refl, not, inl, inr, length, total, total-update, total_mono, update,
  ℕ_discrete, arith,
}
use writeboost_rcu.Rcu.{Config, Rcu}
use writeboost_rcu.Threads.{
  done, WritePc, idle, enqueueing, scanning, reclaiming, flipping, call_step, write_step,
}
use writeboost_rcu.System.{System}
use writeboost_rcu.System.Registry.{is_updater}
use writeboost_rcu.System.Space.{Passes}

module _ {T : Type 0} where
  -- 1 where the list of the current epoch may be full.
  abbrev pub full : WritePc T → ℕ
  full (scanning k fin cnt) = 1
  full (reclaiming fin cnt) = 1
  full (flipping fin cnt) = 1
  full _ = 0

  -- Between the swap and the change of the epoch the list of the previous one is empty.
  abbrev pub Emptied : Rcu T → WritePc T → Type 0
  Emptied r (flipping fin cnt) = length (r.retire_lists (not r.epoch)) ≡ 0
  Emptied r _ = Unit {0}

  pub record Sized (n m : ℕ) (r : Rcu T) : Type 0 where
    pub pool : length r.finished ≤ n
    pub prev : length (r.retire_lists (not r.epoch)) ≤ n
    pub curr : length (r.retire_lists r.epoch) < n + m

  module _ (c : Config) (fresh m m' : ℕ) (r : Rcu T) {r' : Rcu T} {pc' : WritePc T}
      (pos : 0 < c.hardware_concurrency) where
    pub write-Sized :
        (pc : WritePc T)
        → write_step c fresh r pc ≡ done (r', pc')
        → Passes r pc
        → (is_updater pc ≡ 0) ⊎ (m ≡ full pc)
        → m' + full pc ≡ m + full pc'
        → Emptied r pc
        → Sized c.hardware_concurrency m r
        → Sized c.hardware_concurrency m' r' × Emptied r' pc'
    unfolding write_step
    write-Sized idle e p u z d h = ground arith
    write-Sized _ e p u z d h = ground arith

  pub Emptied-keeps :
      (r k : Rcu T) (pc : WritePc T)
      → k.retire_lists ≡ r.retire_lists
      → k.epoch ≡ r.epoch
      → Emptied r pc
      → Emptied k pc
  Emptied-keeps r k (flipping fin cnt) lists epoch ok = ground (arith, lists, epoch)
  Emptied-keeps r k _ lists epoch ok = tt

  pub Emptied-waiting : (r : Rcu T) (pc : WritePc T) → is_updater pc ≡ 0 → Emptied r pc
  Emptied-waiting r (flipping fin cnt) z = absurd (omega arith)
  Emptied-waiting r _ z = tt

  -- A thread that is not the updater leaves the lists alone.
  pub waiting-lists :
      (c : Config) (fresh : ℕ) (r : Rcu T) {r' : Rcu T} {pc' : WritePc T} (pc : WritePc T)
      → write_step c fresh r pc ≡ done (r', pc')
      → is_updater pc ≡ 0
      → (r'.retire_lists ≡ r.retire_lists) × (r'.epoch ≡ r.epoch)
  unfolding write_step
  waiting-lists c fresh r idle e z = absurd (ground arith)
  waiting-lists c fresh r (enqueueing f) e z = (ground arith, ground arith)
  waiting-lists c fresh r _ e z = absurd (omega arith)

  pub call-Sized :
      (f : T → T) (n m : ℕ) (r : Rcu T)
      → Sized n m r
      → Sized n m (call_step f r).0
        × (full (call_step f r).1 ≡ 0)
        × ((call_step f r).0.retire_lists ≡ r.retire_lists)
        × ((call_step f r).0.epoch ≡ r.epoch)
        × Emptied (call_step f r).0 (call_step f r).1
  unfolding call_step
  call-Sized f n m r h = (
    record { pool = h.pool; prev = h.prev; curr = h.curr },
    ground arith,
    refl,
    refl,
    ground arith,
  )

  pub full-le : (pc : WritePc T) → full pc ≤ is_updater pc
  full-le pc = ground arith

  -- Where the updater is not at a full list, no thread is.
  pub full_alone :
      (c : Config) (s : System T) (i : ℕ)
      → i < c.threads
      → total is_updater c.threads s.writes ≤ 1
      → (is_updater (s.writes i) ≡ 0) ⊎ (total full c.threads s.writes ≡ full (s.writes i))
  full_alone c s i lt one = elim (ℕ_discrete (is_updater (s.writes i)) 0) [
    | yes z ↦ inl z
    | no nz ↦ inr (
        omega (
          arith,
          total-update full c.threads s.writes i idle lt,
          total-update is_updater c.threads s.writes i idle lt,
          total_mono full is_updater c.threads (update s.writes i idle) full-le,
        ))
  ]
