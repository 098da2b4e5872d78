-- ===== src/Threads/Alone.antt =====
-- include/wbrcu/rcu_protected.hpp: the steps of the updater in `retire`, with no other thread in
-- between, and the function `retire`.
use mathlib.Core.Option
use writeboost_rcu.Common.{
  ℕ, zero, suc, ◌+◌, ◌<◌, ◌≡◌, refl, Bool, true, false, not, ◌==◌, bit, none, some, inl, inr,
  Bool-cases, ==_iff, arith, ap, Option, if◌then◌else◌, ◌||◌,
}
use writeboost_rcu.Readers.{reading_of, any_reading}
use writeboost_rcu.Readers.Clear.{any_reading-hit}
use writeboost_rcu.Rcu.{Config, Rcu, push_retired, below_threshold, reclaim, flip, retire}
use writeboost_rcu.Threads.{
  Outcome, done, fault, or_fault, WritePc, retiring, scanning, reclaiming, flipping, finishing,
  write_step,
}

-- What a thread in `update` comes to by its own steps: a state and a place, or undefined behaviour.
pub data Alone {T : Type 0} (c : Config) (fresh : ℕ)
    : Rcu T → WritePc T → Outcome (Rcu T × WritePc T) → Type 0 where
  here : {r : Rcu T} {pc : WritePc T} → Alone c fresh r pc (done (r, pc))
  fails : {r : Rcu T} {pc : WritePc T} → write_step c fresh r pc ≡ fault → Alone c fresh r pc fault
  next :
      {r r' : Rcu T} {pc pc' : WritePc T} {o : Outcome (Rcu T × WritePc T)}
      → write_step c fresh r pc ≡ done (r', pc')
      → Alone c fresh r' pc' o
      → Alone c fresh r pc o

module _ {T : Type 0} (c : Config) (fresh fin cnt : ℕ) where
  -- The scan stops at the first reader of the previous epoch.
  scan_hit :
      (r : Rcu T) (left k : ℕ)
      → k + left ≡ c.threads
      → any_reading k r.counters (reading_of (bit (not r.epoch))) ≡ false
      → any_reading c.threads r.counters (reading_of (bit (not r.epoch))) ≡ true
      → Alone c fresh r (scanning k fin cnt) (done (r, finishing fin cnt))
  unfolding write_step any_reading
  scan_hit r zero k size before some_reader = absurd (ground arith)
  scan_hit r (suc left) k size before some_reader =
      let inside : k < c.threads = omega arith in
      elim (Bool-cases (r.counters k == reading_of (bit (not r.epoch)))) [
        | inl hit ↦ next (ground arith) here
        | inr miss ↦
            next (ground arith)
              (scan_hit r left (suc k) (omega arith) (ground (arith, before, miss)) some_reader)
      ]

  -- Without such a reader it goes through all threads.
  scan_miss :
      (r : Rcu T) (left k : ℕ) {o : Outcome (Rcu T × WritePc T)}
      → k + left ≡ c.threads
      → any_reading c.threads r.counters (reading_of (bit (not r.epoch))) ≡ false
      → Alone c fresh r (reclaiming fin cnt) o
      → Alone c fresh r (scanning k fin cnt) o
  unfolding write_step
  scan_miss r zero k size none_reads rest = next (ground arith) rest
  scan_miss r (suc left) k size none_reads rest =
      let inside : k < c.threads = omega arith in
      elim (Bool-cases (r.counters k == reading_of (bit (not r.epoch)))) [
        | inl hit ↦
            let found =
              any_reading-hit c.threads r.counters (reading_of (bit (not r.epoch))) k inside
                ((==_iff (r.counters k) (reading_of (bit (not r.epoch)))).0 hit) in
            absurd (ground (arith, found))
        | inr miss ↦ next (ground arith) (scan_miss r left (suc k) (omega arith) none_reads rest)
      ]

  -- The swap and the deletions, and the store to `m_epoch`.
  reclaim-Alone :
      (r : Rcu T) (o : Option (Rcu T))
      → reclaim r ≡ o
      → Alone c fresh r
          (reclaiming fin cnt)
          (or_fault (λ r'. (r', finishing fin cnt)) (Option.map flip o))
  unfolding write_step flip
  reclaim-Alone r none e = fails (ap (or_fault (λ r'. (r', flipping fin cnt))) e)
  reclaim-Alone r (some r') e =
      next (ap (or_fault (λ r'. (r', flipping fin cnt))) e) (next refl here)

  -- After the push, by the two tests.
  pushed-Alone :
      (r : Rcu T) (low reads : Bool)
      → any_reading c.threads r.counters (reading_of (bit (not r.epoch))) ≡ reads
      → Alone c fresh r (if low then finishing fin cnt else scanning 0 fin cnt) (
          or_fault
            (λ r'. (r', finishing fin cnt))
            (if low || not (not reads) then some r else Option.map flip (reclaim r)))
  unfolding any_reading
  pushed-Alone r true reads e = here
  pushed-Alone r false true e = scan_hit r c.threads 0 (omega arith) refl e
  pushed-Alone r false false e =
      scan_miss r c.threads 0 (omega arith) e (reclaim-Alone r (reclaim r) refl)

  -- From the start of `retire` the updater's own steps, with no other thread in between, lead to
  -- what the function `retire` returns, at the place after it, or to undefined behaviour if
  -- the function is undefined.
  pub retire-Alone :
      (r : Rcu T) (old : ℕ)
      → Alone c fresh r
          (retiring old fin cnt)
          (or_fault (λ r'. (r', finishing fin cnt)) (retire c r old))
  unfolding write_step retire
  retire-Alone r old =
      let r' = push_retired r old in
      next refl (
        pushed-Alone r' (below_threshold c r')
          (any_reading c.threads r'.counters (reading_of (bit (not r'.epoch)))) refl)
