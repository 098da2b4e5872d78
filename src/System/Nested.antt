-- ===== src/System/Nested.antt =====
-- A callback that calls `update` itself: the call is queued, and the thread that could empty the
-- queue is the one that runs the callback.

use writeboost_rcu.Common.{
  ℕ, ◌≤◌, ◌<◌, ◌^◌, ◌≡◌, ◌≢◌, refl, ap, sym, length, total, ℕ_discrete, arith,
}
use writeboost_rcu.Rcu.{Config, Rcu, queue_capacity}
use writeboost_rcu.Threads.{done, WritePc, idle, enqueueing, call_step, write_step}
use writeboost_rcu.System.{
  System, History, Action, write, step, Allocates, record_step, Reach, later,
}
use writeboost_rcu.System.Moves.{Stepped, reads, calls, writes, step-Stepped}
use writeboost_rcu.System.Registry.{is_updater, calls-le, read_step-same}
use writeboost_rcu.System.Invariant.{Reach-Inv, one_updater}
use writeboost_rcu.System.Carried.{not_updater}

module _ {T : Type 0} where
  -- Any steps but those of thread `u` in `update`.
  pub data Without (c : Config) (u : ℕ) (h : History T) (s : System T)
      : History T → System T → Type 0 where
    here : Without c u h s h s
    next :
        {k k' : History T} {t t' : System T}
        → Without c u h s k t
        → (a : Action T) → Allocates t a
        → ((fresh : ℕ) → a ≢ write u fresh)
        → step c t a ≡ done t'
        → k' ≡ record_step t a k
        → Without c u h s k' t'

  Without-Reach :
      {c : Config} {u p₀ : ℕ} {v : T} {h : History T} {s : System T} {k : History T} {t : System T}
      → Reach c p₀ v h s
      → Without c u h s k t
      → Reach c p₀ v k t
  Without-Reach r here = r
  Without-Reach r (next w a ok other e q) = later (Without-Reach r w) a ok e q

  -- The updater `u` stays where it is, the queue stays full, and thread `n` waits for room.
  abbrev Stuck : Config → ℕ → ℕ → (T → T) → System T → Type 0
  Stuck c u n f s =
      (is_updater (s.writes u) ≡ 1)
      × (queue_capacity c ≤ length s.update_queue)
      × (s.writes n ≡ enqueueing f)

  full-write :
      (c : Config) (fresh : ℕ) (r : Rcu T) {k : Rcu T × WritePc T} (pc : WritePc T)
      → is_updater pc ≡ 0
      → queue_capacity c ≤ length r.update_queue
      → write_step c fresh r pc ≢ done k
  unfolding write_step
  full-write c fresh r idle z full e = ground arith
  full-write c fresh r (enqueueing f) z full e = ground arith
  full-write c fresh r _ z full e = absurd (omega arith)

  call-queue : (f : T → T) (r : Rcu T) → (call_step f r).0.update_queue ≡ r.update_queue
  unfolding call_step
  call-queue f r = refl

  Stepped-Stuck :
      {c : Config} {s s' : System T} {a : Action T} (u n : ℕ) (f : T → T)
      → Stepped c s a s'
      → ((fresh : ℕ) → a ≢ write u fresh)
      → u < c.threads
      → total is_updater c.threads s.writes ≤ 1
      → Stuck c u n f s
      → Stuck c u n f s'
  Stepped-Stuck {s = s} u n f (reads i lt) other inside one stuck =
      ground (arith, read_step-same i s.rcu (s.reads i))
  Stepped-Stuck {s = s} u n f (calls i g lt e) other inside one stuck =
      ground (arith, call-queue g s.rcu)
  Stepped-Stuck {c} {s = s} u n f (writes i fresh lt e) other inside one stuck =
      elim (ℕ_discrete u i) [
        | yes same ↦ absurd (other fresh (ap (λ j. write j fresh) (sym same)))
        | no apart ↦ absurd (
            full-write c fresh s.rcu (s.writes i)
              (not_updater c s u i inside lt apart one (omega arith)) stuck.1 e)
      ]

  Without-Stuck :
      {c : Config} {u n p₀ : ℕ} {f : T → T} {v : T} {h : History T} {s : System T} {k : History T}
      {t : System T}
      → Reach c p₀ v h s
      → Without c u h s k t
      → length k.calls < 2 ^ 64
      → u < c.threads
      → Stuck c u n f s
      → Stuck c u n f t
  Without-Stuck r here fits inside stuck = stuck
  Without-Stuck {c} {u} {n} {f = f} r (next {k = k} {t = t} w a ok other e q) fits inside stuck =
      let few : length k.calls < 2 ^ 64 = omega (arith, calls-le k t a q) in
      Stepped-Stuck u n f (step-Stepped c t a e) other inside
        (one_updater (Reach-Inv (Without-Reach r w) few).registry)
        (Without-Stuck {n = n} {f = f} r w few inside stuck)

  -- Let `u` be the updater, the queue full and a call of `update` waiting for room, with fewer than
  -- 2^64 calls. Whatever the other threads do, as long as `u` takes no step in `update` the call does
  -- not return. So where `u` is inside a callback that made this call, the callback never returns.
  pub nested_call_waits :
      {c : Config} {u n p₀ : ℕ} {f : T → T} {v : T} {h : History T} {s : System T} {k : History T}
      {t : System T}
      → Reach c p₀ v h s
      → Without c u h s k t
      → length k.calls < 2 ^ 64
      → u < c.threads
      → is_updater (s.writes u) ≡ 1
      → queue_capacity c ≤ length s.update_queue
      → s.writes n ≡ enqueueing f
      → t.writes n ≡ enqueueing f
  nested_call_waits {n = n} {f = f} r w fits inside updater full waits =
      (Without-Stuck {n = n} {f = f} r w fits inside (updater, full, waits)).2
