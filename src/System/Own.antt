-- ===== src/System/Own.antt =====
-- What the thread that becomes the updater finds when its call of `update` returns.
use writeboost_rcu.Common.{
  ℕ, ◌≤◌, ◌<◌, ◌^◌, ◌≡◌, ap, sym, subst, ◌∙◌, inl, some, apply_all, List, ◌∷◌, ◌++◌, length, arith,
}
use writeboost_rcu.Rcu.{Config}
use writeboost_rcu.Threads.{idle, registered}
use writeboost_rcu.System.{System, History, Reach}
use writeboost_rcu.System.Moves.{step-Stepped}
use writeboost_rcu.System.Registry.{calls-le}
use writeboost_rcu.System.Values.{ValueOk}
use writeboost_rcu.System.Delivery.{published_value}
use writeboost_rcu.System.Refinement.{apply_all-append}
use writeboost_rcu.System.Invariant.{Reach-Inv, one_updater, step-Inv}
use writeboost_rcu.System.Refinement.Growth.{Reach-Extends}
use writeboost_rcu.System.Freshness.{During, here, next}
use writeboost_rcu.System.Freshness.Publications.{During-Reach, step-Since}
use writeboost_rcu.System.Stages.{Stage, returned, Stepped-Stage}

module _ {T : Type 0} where
  calls-le-During :
      {c : Config} {i : ℕ} {h : History T} {s : System T} {n : ℕ} {k : History T} {t : System T}
      → During c i h s n k t
      → length h.calls ≤ length k.calls
  calls-le-During here = omega arith
  calls-le-During (next {k = k} {t = t} w a ok e q z) =
      omega (arith, calls-le-During w, calls-le k t a q)

  During-Stage :
      {c : Config} {i p₀ : ℕ} {v : T} {f : T → T} {h : History T} {s : System T} {n : ℕ}
      {k : History T} {t : System T}
      → Reach c p₀ v h s
      → i < c.threads
      → Stage f h.published h (s.writes i)
      → During c i h s n k t
      → length k.calls < 2 ^ 64
      → Stage f h.published k (t.writes i)
  During-Stage r lt at here fits = at
  During-Stage {c} {i} {v = v} {f = f} {h = h} r lt at
        (next {k = k} {k' = k'} {t = t} {t' = t'} w a ok e q z) fits =
      let few : length k.calls < 2 ^ 64 = omega (arith, calls-le k t a q) in
      let way = During-Reach r w in
      let inv = Reach-Inv way few in
      let last = step-Inv a ok e q fits inv in
      subst (λ x. Stage f h.published x (t'.writes i)) (sym q)
        (Stepped-Stage f h.published v k i lt (step-Stepped c t a e) (one_updater inv.registry)
          (subst (λ x. t'.update_cnt ≡ 0 → x.performed ≡ x.published) q last.values.quiet)
          (step-Since t a k (Reach-Extends way)) (During-Stage r lt at w few))

  -- Let a thread have registered as the updater with `f`. Whatever steps follow, as long as `update` was
  -- called fewer than 2^64 times: when its call has returned, `f` is published, right after the updates
  -- that were published when it registered, and so are all that were published since.
  pub own_update_visible :
      {c : Config} {i p₀ : ℕ} {v : T} {f : T → T} {h : History T} {s : System T} {n : ℕ}
      {k : History T} {t : System T}
      → Reach c p₀ v h s
      → i < c.threads
      → s.writes i ≡ registered f
      → During c i h s n k t
      → length k.calls < 2 ^ 64
      → t.writes i ≡ idle
      → (newer : List (T → T)) × (k.published ≡ newer ++ f ∷ h.published)
        × (t.heap t.ptr ≡ some (apply_all newer (f (apply_all h.published v))))
  own_update_visible {c} {i} {v = v} {f = f} {h = h} {s = s} {k = k} {t = t} r lt at w fits out =
      let few : length h.calls < 2 ^ 64 = omega (arith, calls-le-During w) in
      let inv = Reach-Inv r few in
      let settled : h.performed ≡ h.published =
        subst (ValueOk v h.performed h.published s.heap) at (inv.values.local i lt) in
      let start : Stage f h.published h (s.writes i) = inl (inl at, settled) in
      let (newer, e) = returned f h.published k (t.writes i) out (During-Stage r lt start w fits) in
      (
        newer,
        e,
        published_value (During-Reach r w) fits
            ∙ ap (λ fs. some (apply_all fs v)) e
            ∙ ap some (apply_all-append newer (f ∷ h.published) v),
      )
