-- ===== src/System/Progress.antt =====
-- Threads in `update` never wait for each other in a circle.

use writeboost_rcu.Common.{
  ℕ, ◌≤◌, ◌<◌, ◌^◌, ◌≡◌, ◌≢◌, refl, ap, [], ◌∷◌, ◌++◌, length, update, total, total-update,
  total_pos, le-total, arith,
}
use writeboost_rcu.Rcu.{Config, Rcu, queue_capacity}
use writeboost_rcu.Threads.{
  Outcome, done, blocked, fault, WritePc, idle, enqueueing, working, scanning, write_step,
}
use writeboost_rcu.System.{System, History, write, step, Reach}
use writeboost_rcu.System.Registry.{weight, is_updater, Registry}
use writeboost_rcu.System.Invariant.{Reach-Inv, one_updater}
use writeboost_rcu.System.Safety.{step-ne-fault}
use writeboost_rcu.System.Waiting.{CountOk, Reach-Informed}
use writeboost_rcu.System.Carried.{not_updater}

module _ {T : Type 0} where
  -- The updater waits only for an entry of the queue that has been counted.
  updater-blocked :
      (c : Config) (fresh : ℕ) (r : Rcu T) (pc : WritePc T)
      → is_updater pc ≡ 1
      → CountOk r.update_cnt pc
      → write_step c fresh r pc ≡ blocked
      → (r.update_queue ≡ []) × (weight pc < r.update_cnt)
  unfolding write_step
  updater-blocked c fresh r idle u k e = absurd (omega arith)
  updater-blocked c fresh r (enqueueing f) u k e = absurd (omega arith)
  updater-blocked c fresh r (working p fin cnt unflushed) u k e = ground arith
  updater-blocked c fresh r (scanning i fin cnt) u k e = absurd (ground arith)
  updater-blocked c fresh r _ u k e = absurd (ground arith)

  -- A thread that is in `update` and not the updater can queue its update if there is room.
  enqueueing-done :
      (c : Config) (fresh : ℕ) (r : Rcu T) (pc : WritePc T)
      → is_updater pc ≡ 0
      → 0 < weight pc
      → length r.update_queue < queue_capacity c
      → (k : Rcu T × WritePc T) × (write_step c fresh r pc ≡ done k)
  unfolding write_step
  enqueueing-done c fresh r idle u w room = absurd (omega arith)
  enqueueing-done c fresh r (enqueueing f) u w room =
      ((record r { update_queue = r.update_queue ++ f ∷ [] }, idle), ground arith)
  enqueueing-done c fresh r _ u w room = absurd (omega arith)

  taken :
      (c : Config) (s : System T) (i fresh : ℕ) {k : Rcu T × WritePc T}
      → i < c.threads
      → write_step c fresh s.rcu (s.writes i) ≡ done k
      → (s' : System T) × (step c s (write i fresh) ≡ done s')
  unfolding step
  taken c s i fresh {k} lt e =
      (record s { rcu = k.0; writes = update s.writes i k.1 }, ground arith)

  queues :
      (c : Config) (s : System T) (j fresh : ℕ)
      → j < c.threads
      → is_updater (s.writes j) ≡ 0
      → 0 < weight (s.writes j)
      → length s.update_queue < queue_capacity c
      → (s' : System T) × (step c s (write j fresh) ≡ done s')
  queues c s j fresh lt u w room =
      let got = enqueueing-done c fresh s.rcu (s.writes j) u w room in
      taken c s j fresh {k = got.0} lt got.1

  faulty :
      (c : Config) (s : System T) (i fresh : ℕ)
      → i < c.threads
      → write_step c fresh s.rcu (s.writes i) ≡ fault
      → step c s (write i fresh) ≡ fault
  unfolding step
  faulty c s i fresh lt e = ground arith

  -- In a state that is reached by fewer than 2^64 calls of `update`, on a machine with at least one
  -- hardware thread: if a call of `update` is not done, some thread in `update` can take a step,
  -- whatever `new` returns. So threads in `update` are never stuck, where no callback waits for a call
  -- of its own.
  pub progress :
      {c : Config} {p₀ : ℕ} {v : T} {h : History T} {s : System T}
      → Reach c p₀ v h s
      → length h.calls < 2 ^ 64
      → 0 < c.hardware_concurrency
      → 0 < s.update_cnt
      → (fresh : ℕ)
      → (i : ℕ) × (i < c.threads) × (s' : System T) × (step c s (write i fresh) ≡ done s')
  progress {c} {h = h} {s = s} r fits room busy fresh = by_outcome _ refl
    where
      inv : Registry c h s
      inv = (Reach-Inv r fits).registry

      one : total is_updater c.threads s.writes ≤ 1
      one = one_updater inv

      updater : (u : ℕ) × (u < c.threads) × (0 < is_updater (s.writes u))
      updater = total_pos is_updater c.threads s.writes (ground (arith, inv.count.single))

      registered_once : is_updater (s.writes updater.0) ≡ 1
      registered_once =
          omega (arith, updater.2, le-total is_updater c.threads s.writes updater.0 updater.1, one)

      -- While the updater waits, another thread has been counted and can queue its update.
      other :
          s.update_queue ≡ []
          → weight (s.writes updater.0) < s.update_cnt
          → (i : ℕ) × (i < c.threads) × (s' : System T) × (step c s (write i fresh) ≡ done s')
      other empty more =
          let none_queued : length s.update_queue ≡ 0 = ap length empty in
          let (j, below, pos) = total_pos weight c.threads (update s.writes updater.0 idle) (
            omega (
              arith,
              total-update weight c.threads s.writes updater.0 idle updater.1,
              inv.count.counted,
            )) in
          let apart : updater.0 ≢ j = λ same. ground arith in
          let heavy : 0 < weight (s.writes j) = ground arith in
          let (s', e') =
            queues c s j fresh below
              (not_updater c s updater.0 j updater.1 below apart one
                (omega (arith, registered_once)))
              heavy (omega arith) in
          (j, below, s', e')

      by_outcome :
          (o : Outcome (Rcu T × WritePc T))
          → write_step c fresh s.rcu (s.writes updater.0) ≡ o
          → (i : ℕ) × (i < c.threads) × (s' : System T) × (step c s (write i fresh) ≡ done s')
      by_outcome (done k) e =
          let (s', e') = taken c s updater.0 fresh updater.1 e in (updater.0, updater.1, s', e')
      by_outcome fault e =
          absurd
            (step-ne-fault r fits (write updater.0 fresh) (faulty c s updater.0 fresh updater.1 e))
      by_outcome blocked e =
          let (empty, more) =
            updater-blocked c fresh s.rcu (s.writes updater.0) registered_once
              (Reach-Informed r fits updater.0 updater.1) e in
          other empty more
