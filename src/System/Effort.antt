-- ===== src/System/Effort.antt =====
-- How many steps in `update` are ahead while no further call arrives: a number that falls at each.
use native.Mathlib.Nat.{mul-le-mul_right}
use writeboost_rcu.Common.{
  ℕ, suc, ◌+◌, ◌-◌, ◌*◌, ◌^◌, ◌≤◌, ◌<◌, ◌≡◌, refl, ◌&&◌, ltb, ◌==◌, bit, if◌then◌else◌, arith, ap,
}
use writeboost_rcu.Rcu.{Config, Rcu, succ64}
use writeboost_rcu.Threads.{
  done, WritePc, idle, enqueueing, registered, copied, starting, working, publishing, retiring,
  scanning, reclaiming, flipping, finishing, renewing, write_step,
}
use writeboost_rcu.System.Registry.{is_updater}
use writeboost_rcu.System.Waiting.{CountOk}

-- What `d` updates cost, with `n` threads to scan after each.
pub share : ℕ → ℕ → ℕ
share n d = d * (n + 30)

share_step :
    (n u fin : ℕ) → fin < u → u < 2 ^ 64 → share n (u - succ64 fin) + (n + 30) ≡ share n (u - fin)
unfolding share
share_step n u fin lt small =
    let one_less : u - fin ≡ suc (u - succ64 fin) = omega arith in
    omega (arith, ap (λ k. k * (n + 30)) one_less)

module _ {T : Type 0} (n : ℕ) where
  -- The steps ahead of a thread, with `u` calls in `m_updateCnt`.
  abbrev pub effort : ℕ → WritePc T → ℕ
  effort u idle = 0
  effort u (enqueueing f) = 1
  effort u (registered f) = share n (u - 1) + (n + 25)
  effort u (copied f p) = share n (u - 1) + (n + 24)
  effort u (starting p) = share n (u - 1) + (n + 23)
  effort u (working p fin cnt unflushed) =
      share n (u - fin) + (if unflushed == 0 && ltb fin cnt then 1 else n + 15 + bit (ltb cnt u))
  effort u (publishing p fin cnt) = share n (u - fin) + (n + 12)
  effort u (retiring old fin cnt) = share n (u - fin) + (n + 11)
  effort u (scanning k fin cnt) = share n (u - fin) + (n - k + 8)
  effort u (reclaiming fin cnt) = share n (u - fin) + 7
  effort u (flipping fin cnt) = share n (u - fin) + 6
  effort u (finishing fin cnt) = share n (u - fin) + 4
  effort u (renewing fin cnt) = share n (u - fin) + 3

-- A step in `update` brings the thread nearer to its end, unless it ends all work.
module _ {T : Type 0} (c : Config) (fresh : ℕ) where
  pub write-effort :
      (r : Rcu T) {r' : Rcu T} {pc' : WritePc T} (pc : WritePc T)
      → write_step c fresh r pc ≡ done (r', pc')
      → r.update_cnt < 2 ^ 64
      → CountOk r.update_cnt pc
      → effort c.threads r.update_cnt pc' < effort c.threads r.update_cnt pc
  unfolding write_step
  write-effort r idle e few h = absurd (ground arith)
  write-effort r (enqueueing f) e few h = ground arith
  write-effort r (working p fin cnt unflushed) e few h =
      ground (arith, share_step c.threads r.update_cnt fin)
  write-effort r (scanning k fin cnt) e few h = ground arith
  write-effort r _ e few h = ground arith

pub share_lem : (n d : ℕ) → share n d ≡ d * (n + 30)
unfolding share
share_lem n d = refl

share-le : (n d e : ℕ) → d ≤ e → share n d ≤ share n e
unfolding share
share-le n d e h = mul-le-mul_right (n + 30) h

module _ {T : Type 0} where
  -- One thread at most is the updater, and the others have one step ahead.
  pub effort-le :
      (n u : ℕ) (pc : WritePc T) → effort n u pc ≤ is_updater pc * (share n u + (n + 25)) + 1
  effort-le n u idle = omega arith
  effort-le n u (enqueueing f) = omega arith
  effort-le n u (working p fin cnt unflushed) = ground (arith, share-le n (u - fin) u)
  effort-le n u (registered f) = ground (arith, share-le n (u - 1) u)
  effort-le n u (copied f p) = ground (arith, share-le n (u - 1) u)
  effort-le n u (starting p) = ground (arith, share-le n (u - 1) u)
  effort-le n u (publishing p fin cnt) = ground (arith, share-le n (u - fin) u)
  effort-le n u (retiring p fin cnt) = ground (arith, share-le n (u - fin) u)
  effort-le n u (scanning k fin cnt) = ground (arith, share-le n (u - fin) u)
  effort-le n u (reclaiming fin cnt) = ground (arith, share-le n (u - fin) u)
  effort-le n u (flipping fin cnt) = ground (arith, share-le n (u - fin) u)
  effort-le n u (finishing fin cnt) = ground (arith, share-le n (u - fin) u)
  effort-le n u (renewing fin cnt) = ground (arith, share-le n (u - fin) u)
