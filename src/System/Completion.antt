-- ===== src/System/Completion.antt =====
-- What `update` promises in the end: everything that was asked for is done and visible.

use writeboost_rcu.Common.{
  apply_all, ℕ, zero, suc, ◌≤◌, ◌<◌, ◌^◌, ◌≡◌, refl, ap, ◌∙◌, none, some, [], length, sum_by,
  ℕ_discrete, arith,
}
use writeboost_rcu.Rcu.{Config}
use writeboost_rcu.Threads.{done}
use writeboost_rcu.System.{System, History, write, step, record_step, Reach, later}
use writeboost_rcu.System.Registry.{record_write-calls}
use writeboost_rcu.System.Progress.{progress}
use writeboost_rcu.System.Supply.{free_address}
use writeboost_rcu.System.Delivery.{settled_value}
use writeboost_rcu.System.Termination.{
  work, step-work, Settling, here, write_next, Settling-Reach, Settling-calls,
}

module _ {T : Type 0} where
  -- Steps in `update`, and nothing else.
  pub data Updating (c : Config) (h : History T) (s : System T)
      : History T → System T → Type 0 where
    stays : Updating c h s h s
    writes_next :
        {k k' : History T} {t t' : System T}
        → Updating c h s k t
        → (i fresh : ℕ) → t.heap fresh ≡ none
        → step c t (write i fresh) ≡ done t'
        → k' ≡ record_step t (write i fresh) k
        → Updating c h s k' t'

  Updating-Settling :
      {c : Config} {h : History T} {s : System T} {k : History T} {t : System T}
      → Updating c h s k t
      → Settling c h s k t
  Updating-Settling stays = here
  Updating-Settling (writes_next w i fresh ok e q) = write_next (Updating-Settling w) i fresh ok e q

  -- A step in `update` before the others.
  first :
      {c : Config} {h h' : History T} {s s' : System T} {k : History T} {t : System T} (i fresh : ℕ)
      → s.heap fresh ≡ none
      → step c s (write i fresh) ≡ done s'
      → h' ≡ record_step s (write i fresh) h
      → Updating c h' s' k t
      → Updating c h s k t
  first i fresh ok e q stays = writes_next stays i fresh ok e q
  first i fresh ok e q (writes_next w j new ok' d q') =
      writes_next (first i fresh ok e q w) j new ok' d q'

  -- While work is left, a step can be taken, after which there is less.
  nearer :
      {c : Config} {p₀ : ℕ} {v : T} {h : History T} {s : System T}
      → Reach c p₀ v h s
      → length h.calls < 2 ^ 64
      → 0 < c.hardware_concurrency
      → 0 < s.update_cnt
      → (i : ℕ) × (fresh : ℕ) × (s' : System T) × (s.heap fresh ≡ none)
        × (step c s (write i fresh) ≡ done s')
        × (length (record_step s (write i fresh) h).calls < 2 ^ 64)
        × (work c s' < work c s)
  nearer {h = h} {s = s} r fits room busy =
      let (fresh, unused) = free_address r in
      let (i, lt, s', e) = progress r fits room busy fresh in
      let fits' : length (record_step s (write i fresh) h).calls < 2 ^ 64 =
        omega (arith, ap length (record_write-calls s.rcu (s.writes i) h)) in
      (i, fresh, s', unused fresh (omega arith), e, fits', step-work i fresh r fits e refl fits')

  finish_within :
      {c : Config} {p₀ : ℕ} {v : T} {h : History T} {s : System T} (steps : ℕ)
      → work c s ≤ steps
      → Reach c p₀ v h s
      → length h.calls < 2 ^ 64
      → 0 < c.hardware_concurrency
      → (k : History T) × (t : System T) × Updating c h s k t × (t.update_cnt ≡ 0)
  finish_within {h = h} {s = s} zero bound r fits room = elim (ℕ_discrete s.update_cnt 0) [
    | yes z ↦ (h, s, stays, z)
    | no busy ↦
        let (i, fresh, s', unused, e, fits', less) = nearer r fits room (omega arith) in
        absurd (omega arith)
  ]
  finish_within {h = h} {s = s} (suc steps) bound r fits room = elim (ℕ_discrete s.update_cnt 0) [
    | yes z ↦ (h, s, stays, z)
    | no busy ↦
        let (i, fresh, s', unused, e, fits', less) = nearer r fits room (omega arith) in
        let (k, t, rest, z) =
          finish_within {h = record_step s (write i fresh) h} {s = s'} steps (omega arith)
            (later r (write i fresh) unused e refl) fits' room in
        (k, t, first i fresh unused e refl rest, z)
  ]

  -- From every state that is reached by fewer than 2^64 calls of `update`, on a machine with at least
  -- one hardware thread, steps of the threads in `update` alone lead to a state where no call is
  -- left, the queue is empty, each update that was asked for was performed once, and `m_ptr` leads
  -- to the initial object after all of them. A call from inside a callback counts as one of another
  -- thread, which the callback does not wait for.
  pub completion :
      {c : Config} {p₀ : ℕ} {v : T} {h : History T} {s : System T}
      → Reach c p₀ v h s
      → length h.calls < 2 ^ 64
      → 0 < c.hardware_concurrency
      → (k : History T) × (t : System T) × Updating c h s k t
        × (t.update_cnt ≡ 0)
        × (t.update_queue ≡ [])
        × ((w : (T → T) → ℕ) → sum_by w k.performed ≡ sum_by w h.calls)
        × (t.heap t.ptr ≡ some (apply_all k.performed v))
  completion {c} {s = s} r fits room =
      let (k, t, w, z) = finish_within (work c s) (omega arith) r fits room in
      let steps = Updating-Settling w in
      let same = Settling-calls steps in
      let (empty, order, all, visible) =
        settled_value (Settling-Reach r steps) (omega (arith, ap length same)) z in
      (k, t, w, z, empty, λ weigh. all weigh ∙ ap (sum_by weigh) same, visible)
