-- ===== src/System/Latency.antt =====
-- How far the published object can be behind the updates that were performed.

use writeboost_rcu.Common.{
  ℕ, ◌+◌, ◌≤◌, ◌<◌, ◌^◌, ◌≡◌, ap, List, length, ℕ_discrete, total_pos, arith,
}
use writeboost_rcu.Rcu.{Config, Rcu}
use writeboost_rcu.Threads.{
  done, WritePc, idle, enqueueing, starting, working, publishing, call_step, write_step,
}
use writeboost_rcu.System.{System, History, record_write, Reach}
use writeboost_rcu.System.Registry.{is_updater}
use writeboost_rcu.System.Invariant.{Reach-Inv}
use writeboost_rcu.System.Carried.{Carried, Reach-Everywhere}

module _ {T : Type 0} where
  -- How many updates the updater has performed and not published, with a threshold of `t`: its own is
  -- not counted in `unflushed`.
  abbrev LagOk : ℕ → List (T → T) → List (T → T) → WritePc T → Type 0
  LagOk t performed published idle = Unit
  LagOk t performed published (enqueueing f) = Unit
  LagOk t performed published (starting p) = length performed ≡ length published + 1
  LagOk t performed published (working p fin cnt unflushed) =
      (length performed ≤ length published + unflushed + 1) × (unflushed < t)
  LagOk t performed published (publishing p fin cnt) = length performed ≤ length published + t + 1
  LagOk t performed published _ = length performed ≡ length published

  waiting-LagOk :
      (t : ℕ) (performed published : List (T → T)) (pc : WritePc T)
      → is_updater pc ≡ 0
      → LagOk t performed published pc
  waiting-LagOk t performed published idle z = tt
  waiting-LagOk t performed published (enqueueing f) z = tt
  waiting-LagOk t performed published _ z = absurd (omega arith)

  write-LagOk :
      (c : Config) (fresh : ℕ) (h : History T) (r : Rcu T) {r' : Rcu T} {pc' : WritePc T}
      (pc : WritePc T)
      → 0 < c.flushing_threshold
      → c.flushing_threshold < 2 ^ 64
      → write_step c fresh r pc ≡ done (r', pc')
      → LagOk c.flushing_threshold h.performed h.published pc
      → LagOk c.flushing_threshold
          (record_write r pc h).performed
          (record_write r pc h).published
          pc'
  unfolding write_step
  write-LagOk c fresh h r idle pos small e ok = absurd (ground arith)
  write-LagOk c fresh h r _ pos small e ok = ground arith

  call-LagOk :
      (t : ℕ) (f : T → T) (performed published : List (T → T)) (r : Rcu T)
      → (r.update_cnt ≡ 0 → performed ≡ published)
      → LagOk t performed published (call_step f r).1
  unfolding call_step
  call-LagOk t f performed published r quiet = elim (ℕ_discrete r.update_cnt 0) [
    | yes z ↦ ground (arith, z, ap length (quiet z))
    | no busy ↦ ground arith
  ]

  LagOk-Carried :
      (c : Config)
      → 0 < c.flushing_threshold
      → c.flushing_threshold < 2 ^ 64
      → Carried {T = T} c
          (λ performed published n pc. LagOk c.flushing_threshold performed published pc)
  LagOk-Carried c pos small = record {
    waiting =
        λ performed published n pc z. waiting-LagOk c.flushing_threshold performed published pc z;
    own = λ fresh h r pc e few ok. write-LagOk c fresh h r pc pos small e ok;
    asked = λ performed published n pc ok. ok;
    called = λ f performed published r quiet.
        call-LagOk c.flushing_threshold f performed published r quiet;
  }

  LagOk-le :
      (t : ℕ) (performed published : List (T → T)) (pc : WritePc T)
      → 0 < is_updater pc
      → LagOk t performed published pc
      → length performed ≤ length published + t + 1
  LagOk-le t performed published idle u ok = absurd (omega arith)
  LagOk-le t performed published (enqueueing f) u ok = absurd (omega arith)
  LagOk-le t performed published _ u ok = omega arith

  -- In every state that is reached by fewer than 2^64 calls of `update`, with a positive
  -- `flushingThreshold`: readers are at most that many updates and one behind what was performed.
  pub latency :
      {c : Config} {p₀ : ℕ} {v : T} {h : History T} {s : System T}
      → Reach c p₀ v h s
      → length h.calls < 2 ^ 64
      → 0 < c.flushing_threshold
      → c.flushing_threshold < 2 ^ 64
      → length h.performed ≤ length h.published + c.flushing_threshold + 1
  latency {c} {h = h} {s = s} r fits pos small = elim (ℕ_discrete s.update_cnt 0) [
    | yes z ↦ omega (arith, ap length ((Reach-Inv r fits).values.quiet z))
    | no busy ↦
        let (u, lt, updater) =
          total_pos is_updater c.threads s.writes
            (ground (arith, (Reach-Inv r fits).registry.count.single)) in
        LagOk-le c.flushing_threshold h.performed h.published (s.writes u) updater
          (Reach-Everywhere (LagOk-Carried c pos small) r fits u lt)
  ]
