-- ===== src/System/Waiting.antt =====
-- `do_updates` counts right: how far the updater is never exceeds what it has read of `m_updateCnt`,
-- nor that what is there.
use writeboost_rcu.Common.{
  ℕ, ◌+◌, ◌≤◌, ◌<◌, ◌^◌, ◌≡◌, ◌⊎◌, inl, inr, refl, length, ℕ_discrete, arith,
}
use writeboost_rcu.Rcu.{Config, Rcu}
use writeboost_rcu.Threads.{
  done, WritePc, idle, enqueueing, registered, copied, starting, working, publishing, retiring,
  scanning, reclaiming, flipping, finishing, renewing, call_step, write_step,
}
use writeboost_rcu.System.{System, History, Reach}
use writeboost_rcu.System.Registry.{is_updater}
use writeboost_rcu.System.Carried.{Carried, Reach-Everywhere}

module _ {T : Type 0} where
  -- How `done`, `updateCnt` and `m_updateCnt` compare where a thread stands: the updater has done no
  -- more than it knows of, which is no more than there is.
  abbrev pub CountOk : ℕ → WritePc T → Type 0
  CountOk n idle = Unit
  CountOk n (enqueueing f) = Unit
  CountOk n (registered f) = 0 < n
  CountOk n (copied f p) = 0 < n
  CountOk n (starting p) = 0 < n
  CountOk n (working p fin cnt unflushed) = (fin ≤ cnt) × (cnt ≤ n)
  CountOk n (publishing p fin cnt) = (fin ≤ cnt) × (cnt ≤ n)
  CountOk n (retiring old fin cnt) = (fin ≤ cnt) × (cnt ≤ n)
  CountOk n (scanning k fin cnt) = (fin ≤ cnt) × (cnt ≤ n)
  CountOk n (reclaiming fin cnt) = (fin ≤ cnt) × (cnt ≤ n)
  CountOk n (flipping fin cnt) = (fin ≤ cnt) × (cnt ≤ n)
  CountOk n (finishing fin cnt) = (fin ≤ cnt) × (cnt ≤ n)
  CountOk n (renewing fin cnt) = (fin < cnt) × (cnt ≤ n)

  waiting-CountOk : (n : ℕ) (pc : WritePc T) → is_updater pc ≡ 0 → CountOk n pc
  waiting-CountOk n idle e = tt
  waiting-CountOk n (enqueueing f) e = tt
  waiting-CountOk n _ e = absurd (omega arith)

  CountOk-mono : (n m : ℕ) (pc : WritePc T) → n ≤ m → CountOk n pc → CountOk m pc
  CountOk-mono n m idle h ok = tt
  CountOk-mono n m (enqueueing f) h ok = tt
  CountOk-mono n m _ h ok = omega arith

  -- A step of a thread in `update`: only the updater changes the count, and only to 0.
  pub write-CountOk :
      (c : Config) (fresh : ℕ) (r : Rcu T) {r' : Rcu T} {pc' : WritePc T} (pc : WritePc T)
      → write_step c fresh r pc ≡ done (r', pc')
      → r.update_cnt < 2 ^ 64
      → CountOk r.update_cnt pc
      → CountOk r'.update_cnt pc'
        × ((r'.update_cnt ≡ r.update_cnt) ⊎ ((is_updater pc ≡ 1) × (r'.update_cnt ≡ 0)))
  unfolding write_step
  write-CountOk c fresh r idle e few h = absurd (ground arith)
  write-CountOk c fresh r (enqueueing f) e few h = (ground arith, inl (ground arith))
  write-CountOk c fresh r (registered f) e few h = (ground arith, inl (ground arith))
  write-CountOk c fresh r (working p fin cnt unflushed) e few h = (ground arith, inl (ground arith))
  write-CountOk c fresh r (scanning k fin cnt) e few h = (ground arith, inl (ground arith))
  write-CountOk c fresh r {r' = r'} (finishing fin cnt) e few h =
      elim (ℕ_discrete r'.update_cnt r.update_cnt) [
        | yes kept ↦ (ground arith, inl kept)
        | no changed ↦ (ground arith, inr (refl, ground arith))
      ]
  write-CountOk c fresh r _ e few h = (ground arith, inl (ground arith))

  call-CountOk : (f : T → T) (r : Rcu T) → CountOk (r.update_cnt + 1) (call_step f r).1
  unfolding call_step
  call-CountOk f r = ground arith

  CountOk-Carried : (c : Config) → Carried {T = T} c (λ performed published n pc. CountOk n pc)
  CountOk-Carried c = record {
    waiting = λ performed published n pc z. waiting-CountOk n pc z;
    own = λ fresh h r pc e few ok. (write-CountOk c fresh r pc e few ok).0;
    asked = λ performed published n pc ok. CountOk-mono n (n + 1) pc (omega arith) ok;
    called = λ f performed published r quiet. call-CountOk f r;
  }

  abbrev pub Informed : Config → System T → Type 0
  Informed c s = (i : ℕ) → i < c.threads → CountOk s.update_cnt (s.writes i)

  pub Reach-Informed :
      {c : Config} {p₀ : ℕ} {v : T} {h : History T} {s : System T}
      → Reach c p₀ v h s
      → length h.calls < 2 ^ 64
      → Informed c s
  Reach-Informed {c} r fits = Reach-Everywhere (CountOk-Carried c) r fits
