-- ===== src/System/Space.antt =====
-- How much memory the retired objects take, while the updater's scans do not meet readers.
mod Steps
pub mod Bounds
use writeboost_rcu.Common.{
  ℕ, ◌+◌, ◌≤◌, ◌<◌, ◌^◌, ◌≡◌, ◌≢◌, ◌⊎◌, refl, ap, sym, subst, Bool, Bool-cases, true, false, not,
  inl, inr, List, [], ◌∷◌, length, total, total-update, total-const, total_mono, le-total, update,
  ℕ_discrete, arith, bit, ltb,
}
use writeboost_rcu.Readers.{reading_of}
use writeboost_rcu.Rcu.{Config, Rcu}
use writeboost_rcu.Threads.{
  read_step, done, WritePc, idle, enqueueing, registered, copied, starting, working, publishing,
  retiring, scanning, reclaiming, flipping, finishing, renewing, call_step, write_step,
}
use writeboost_rcu.System.{
  System, History, Action, read, call, write, step, Allocates, record_step, start, nothing_yet,
}
use writeboost_rcu.System.Moves.{Stepped, reads, calls, writes, step-Stepped}
use writeboost_rcu.System.Registry.{is_updater, calls-le, read_step-same}
use writeboost_rcu.System.Invariant.{Reach-Inv, one_updater}
use writeboost_rcu.System.Carried.{not_updater}

module _ {T : Type 0} where
  -- A step that tests a reader's byte does not find it in the previous epoch.
  abbrev pub Passes : Rcu T → WritePc T → Type 0
  Passes r (scanning k fin cnt) = r.counters k ≢ reading_of (bit (not r.epoch))
  Passes r _ = Unit {0}

  abbrev pub Unobstructed : System T → Action T → Type 0
  Unobstructed s (write i fresh) = Passes s.rcu (s.writes i)
  Unobstructed s _ = Unit {0}

  -- The states that threads reach while no scan meets a reader of the previous epoch.
  pub data Clear (c : Config) (p₀ : ℕ) (v : T) : History T → System T → Type 0 where
    begin : Clear c p₀ v nothing_yet (start p₀ v)
    later :
        {h h' : History T} {s s' : System T}
        → Clear c p₀ v h s
        → (a : Action T) → Allocates s a
        → Unobstructed s a
        → step c s a ≡ done s'
        → h' ≡ record_step s a h
        → Clear c p₀ v h' s'
