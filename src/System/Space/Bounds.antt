-- ===== src/System/Space/Bounds.antt =====
-- The retired objects in every state that is reached while no scan meets a reader.
use writeboost_rcu.Common.{
  ℕ, ◌≤◌, ◌<◌, ◌^◌, ◌≡◌, ◌≢◌, ap, sym, subst, not, length, total, total-update, total_mono, update,
  ℕ_discrete, arith,
}
use writeboost_rcu.Rcu.{Config, Rcu}
use writeboost_rcu.Threads.{read_step, done, WritePc, call_step, write_step}
use writeboost_rcu.System.{
  System, History, Action, read, call, write, step, Allocates, record_step, Reach, start,
  nothing_yet,
}
use writeboost_rcu.System.Moves.{Stepped, reads, calls, writes, step-Stepped}
use writeboost_rcu.System.Registry.{is_updater, calls-le, read_step-same}
use writeboost_rcu.System.Invariant.{Reach-Inv, one_updater}
use writeboost_rcu.System.Carried.{not_updater}
use writeboost_rcu.System as Wbrcu
use writeboost_rcu.System.Space.{Unobstructed, Clear, begin, later}
use writeboost_rcu.System.Space.Steps.{
  full, Emptied, Sized, write-Sized, call-Sized, full_alone, full-le, Emptied-keeps,
  Emptied-waiting, waiting-lists,
}

module _ {T : Type 0} where
  record Bounded (c : Config) (s : System T) : Type 0 where
    sizes : Sized c.hardware_concurrency (total full c.threads s.writes) s.rcu
    emptied : (j : ℕ) → j < c.threads → Emptied s.rcu (s.writes j)

  Sized-counters :
      (n m : ℕ) (r k : Rcu T) {counters : ℕ → ℕ}
      → k ≡ record r { counters = counters }
      → Sized n m r
      → Sized n m k
  Sized-counters n m r k same h =
      subst (Sized n m) (sym same) (record { pool = h.pool; prev = h.prev; curr = h.curr })

  -- What another thread's step in `update` leaves of `Emptied`.
  other-Emptied :
      (c : Config) (s : System T) (i j fresh : ℕ) {r : Rcu T} {pc : WritePc T}
      → i < c.threads
      → j < c.threads
      → i ≢ j
      → total is_updater c.threads s.writes ≤ 1
      → write_step c fresh s.rcu (s.writes i) ≡ done (r, pc)
      → Emptied s.rcu (s.writes j)
      → Emptied r (s.writes j)
  other-Emptied c s i j fresh {r} {pc} li lj apart one e ok =
      elim (ℕ_discrete (is_updater (s.writes i)) 0) [
        | yes z ↦
            let (lists, epoch) = waiting-lists c fresh s.rcu {r' = r} {pc' = pc} (s.writes i) e z in
            Emptied-keeps s.rcu r (s.writes j) lists epoch ok
        | no nz ↦ Emptied-waiting r (s.writes j) (not_updater c s i j li lj apart one nz)
      ]

  Stepped-Bounded :
      {c : Config} {s s' : System T} {a : Action T}
      → Stepped c s a s'
      → Unobstructed s a
      → 0 < c.hardware_concurrency
      → total is_updater c.threads s.writes ≤ 1
      → Bounded c s
      → Bounded c s'
  Stepped-Bounded {c} {s = s} (reads i lt) free pos one b =
      let (counters, same) = read_step-same i s.rcu (s.reads i) in
      record {
        sizes = Sized-counters c.hardware_concurrency _ s.rcu _ same b.sizes;
        emptied = λ j below.
            Emptied-keeps s.rcu (read_step i s.rcu (s.reads i)).0 (s.writes j)
              (ap (λ (r : Rcu T). r.retire_lists) same) (ap (λ (r : Rcu T). r.epoch) same)
              (b.emptied j below);
      }
  Stepped-Bounded {c} {s = s} (calls i f lt e) free pos one b =
      let m = total full c.threads s.writes in
      let (sizes, none_full, lists, epoch, empty) =
        call-Sized f c.hardware_concurrency m s.rcu b.sizes in
      record {
        sizes =
            let same : m ≡ total full c.threads (update s.writes i (call_step f s.rcu).1) = ground (
              arith,
              total-update full c.threads s.writes i (call_step f s.rcu).1 lt,
              none_full,
              e,
            ) in
            subst (λ n. Sized c.hardware_concurrency n (call_step f s.rcu).0) same sizes;
        emptied = λ j below. elim (ℕ_discrete i j) [
          | yes same ↦ ground (arith, empty, same)
          | no apart ↦
              let eq : s.writes j ≡ update s.writes i (call_step f s.rcu).1 j = ground arith in
              subst (Emptied (call_step f s.rcu).0) eq (
                Emptied-keeps s.rcu (call_step f s.rcu).0 (s.writes j) lists epoch
                  (b.emptied j below))
        ];
      }
  Stepped-Bounded {c} {s = s} (writes i fresh lt {r = r} {pc = pc} e) free pos one b =
      let (sizes, empty) =
        write-Sized c fresh (total full c.threads s.writes)
          (total full c.threads (update s.writes i pc)) s.rcu {r' = r} {pc' = pc} pos (s.writes i) e
          free (full_alone c s i lt one) (total-update full c.threads s.writes i pc lt)
          (b.emptied i lt) b.sizes in
      record {
        sizes = sizes;
        emptied = λ j below. elim (ℕ_discrete i j) [
          | yes same ↦
              let eq : pc ≡ update s.writes i pc j = ground arith in subst (Emptied r) eq empty
          | no apart ↦
              let eq : s.writes j ≡ update s.writes i pc j = ground arith in
              subst (Emptied r) eq
                (other-Emptied c s i j fresh {pc = pc} lt below apart one e (b.emptied j below))
        ];
      }

  start-Bounded : (c : Config) (p : ℕ) (v : T) → 0 < c.hardware_concurrency → Bounded c (start p v)
  unfolding start
  start-Bounded c p v pos = record {
    sizes = record { pool = omega arith; prev = omega arith; curr = omega arith };
    emptied = λ j below. tt;
  }

  Clear-Reach :
      {c : Config} {p₀ : ℕ} {v : T} {h : History T} {s : System T}
      → Clear c p₀ v h s
      → Reach c p₀ v h s
  Clear-Reach begin = Wbrcu.begin
  Clear-Reach (later r a ok free e q) = Wbrcu.later (Clear-Reach r) a ok e q

  Clear-Bounded :
      {c : Config} {p₀ : ℕ} {v : T} {h : History T} {s : System T}
      → 0 < c.hardware_concurrency
      → Clear c p₀ v h s
      → length h.calls < 2 ^ 64
      → Bounded c s
  Clear-Bounded {c} {p₀} {v} pos begin fits = start-Bounded c p₀ v pos
  Clear-Bounded {c} pos (later {h = h} {s = s} r a ok free e q) fits =
      let few : length h.calls < 2 ^ 64 = omega (arith, calls-le h s a q) in
      Stepped-Bounded (step-Stepped c s a e) free pos
        (one_updater (Reach-Inv (Clear-Reach r) few).registry) (Clear-Bounded pos r few)

  -- While no scan of the updater meets a reader of the previous epoch, with fewer than 2^64 calls of
  -- `update` and at least one hardware thread: neither retire list nor the object pool is ever longer
  -- than the number of hardware threads, however many updates there were.
  pub retired_bound :
      {c : Config} {p₀ : ℕ} {v : T} {h : History T} {s : System T}
      → Clear c p₀ v h s
      → length h.calls < 2 ^ 64
      → 0 < c.hardware_concurrency
      → (length (s.retire_lists s.epoch) ≤ c.hardware_concurrency)
        × (length (s.retire_lists (not s.epoch)) ≤ c.hardware_concurrency)
        × (length s.finished ≤ c.hardware_concurrency)
  retired_bound {c} {s = s} r fits pos =
      let b = Clear-Bounded pos r fits in
      let one = one_updater (Reach-Inv (Clear-Reach r) fits).registry in
      (
        omega (arith, b.sizes.curr, total_mono full is_updater c.threads s.writes full-le, one),
        b.sizes.prev,
        b.sizes.pool,
      )
