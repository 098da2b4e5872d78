-- ===== src/System/Accounts.antt =====
-- Every update that was asked for is performed once: none is lost and none is done twice.
use writeboost_rcu.Common.{
  ℕ, ◌+◌, ◌≡◌, refl, [], ◌∷◌, sum_by, sum_by-append, total, total-update, total-const, arith,
}
use writeboost_rcu.Rcu.{Config, Rcu}
use writeboost_rcu.Threads.{
  done, WritePc, idle, enqueueing, registered, copied, working, call_step, write_step,
}
use writeboost_rcu.System.{
  System, History, Action, step, start, nothing_yet, record_step, record_write,
}
use writeboost_rcu.System.Moves.{Stepped, reads, calls, writes, step-Stepped}
use writeboost_rcu.System.Registry.{read_step-same}

module _ {T : Type 0} (w : (T → T) → ℕ) where
  -- The weight of the update that a thread has asked for and that is in no queue yet.
  abbrev pub pending : WritePc T → ℕ
  pending (enqueueing f) = w f
  pending (registered f) = w f
  pending (copied f p) = w f
  pending _ = 0

  -- Under any weight, the updates asked for are those performed, those queued and those that the
  -- threads are about to queue or to perform.
  abbrev pub Accounted : Config → History T → System T → Type 0
  Accounted c h s =
      sum_by w h.calls
      ≡ sum_by w h.performed + sum_by w s.update_queue + total pending c.threads s.writes

  write_accounts :
      (c : Config) (fresh : ℕ) (h : History T) (r : Rcu T) {r' : Rcu T} {pc' : WritePc T}
      (pc : WritePc T)
      → write_step c fresh r pc ≡ done (r', pc')
      → ((record_write r pc h).calls ≡ h.calls)
        × (sum_by w (record_write r pc h).performed + sum_by w r'.update_queue + pending pc'
            ≡ sum_by w h.performed + sum_by w r.update_queue + pending pc)
  unfolding write_step
  write_accounts c fresh h r idle e = ground arith
  write_accounts c fresh h r (enqueueing f) e =
      ground (arith, sum_by-append w r.update_queue (f ∷ []))
  write_accounts c fresh h r (working p fin cnt unflushed) e = ground arith
  write_accounts c fresh h r _ e = ground arith

  call_accounts :
      (f : T → T) (r : Rcu T)
      → ((call_step f r).0.update_queue ≡ r.update_queue) × (pending (call_step f r).1 ≡ w f)
  unfolding call_step
  call_accounts f r = ground arith

  pub start-Accounted : (c : Config) (p : ℕ) (v : T) → Accounted c nothing_yet (start p v)
  unfolding start
  start-Accounted c p v = omega (arith, total-const pending c.threads idle refl)

  Stepped-Accounted :
      {c : Config} (h : History T) {s s' : System T} {a : Action T}
      → Stepped c s a s'
      → Accounted c h s
      → Accounted c (record_step s a h) s'
  Stepped-Accounted h {s} (reads i lt) inv = ground (arith, read_step-same i s.rcu (s.reads i))
  Stepped-Accounted {c} h {s} (calls i f lt e) inv = ground (
    arith,
    call_accounts f s.rcu,
    total-update pending c.threads s.writes i (call_step f s.rcu).1 lt,
  )
  Stepped-Accounted {c} h {s} (writes i fresh lt {r = r} {pc = pc} e) inv = ground (
    arith,
    write_accounts c fresh h s.rcu (s.writes i) e,
    total-update pending c.threads s.writes i pc lt,
  )

  pub step-Accounted :
      (c : Config) (h : History T) (s : System T) (a : Action T) {s' : System T}
      → step c s a ≡ done s'
      → Accounted c h s
      → Accounted c (record_step s a h) s'
  step-Accounted c h s a e inv = Stepped-Accounted h (step-Stepped c s a e) inv
