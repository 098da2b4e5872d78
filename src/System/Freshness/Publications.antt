-- ===== src/System/Freshness/Publications.antt =====
-- Publications are never taken back.
use mathlib.Core.List.{append_assoc}
use writeboost_rcu.Common.{ℕ, ◌≡◌, refl, ap, sym, subst, ◌∙◌, inl, inr, List, [], ◌++◌}
use writeboost_rcu.Rcu.{Config}
use writeboost_rcu.Threads.{WritePc}
use writeboost_rcu.System.{
  System, History, Action, read, call, write, record_step, record_write, Reach, later,
}
use writeboost_rcu.System.Refinement.Growth.{Extends, Reach-Extends, Shows, record_write-Shows}
use writeboost_rcu.System.Freshness.{During, here, next}

module _ {T : Type 0} where
  pub During-Reach :
      {c : Config} {i p₀ : ℕ} {v : T} {h : History T} {s : System T} {n : ℕ} {k : History T}
      {t : System T}
      → Reach c p₀ v h s
      → During c i h s n k t
      → Reach c p₀ v k t
  During-Reach r here = r
  During-Reach r (next w a ok e q z) = later (During-Reach r w) a ok e q

  -- Publications are never taken back.
  abbrev pub Since : History T → History T → Type 0
  Since h k = (newer : List (T → T)) × (k.published ≡ newer ++ h.published)

  Shows-Since : {pc : WritePc T} (h k : History T) → Extends h → Shows pc h k → Since h k
  Shows-Since h k more (inl (p, q)) = ([], q)
  Shows-Since h k more (inr (inl (f, p, q))) = ([], q)
  Shows-Since h k (recent, more) (inr (inr (p, fin, cnt, place, accepted, q))) = (recent, q ∙ more)

  pub step-Since :
      (s : System T) (a : Action T) (h : History T) → Extends h → Since h (record_step s a h)
  step-Since s (read i) h more = ([], refl)
  step-Since s (call i f) h more = ([], refl)
  step-Since s (write i fresh) h more =
      Shows-Since h (record_write s.rcu (s.writes i) h) more
        (record_write-Shows s.rcu (s.writes i) h)

  Since-trans : (h k l : History T) → Since h k → Since k l → Since h l
  Since-trans h k l (xs, p) (ys, q) =
      (ys ++ xs, q ∙ ap (λ zs. ys ++ zs) p ∙ sym (append_assoc ys xs h.published))

  pub During-Since :
      {c : Config} {i p₀ : ℕ} {v : T} {h : History T} {s : System T} {n : ℕ} {k : History T}
      {t : System T}
      → Reach c p₀ v h s
      → During c i h s n k t
      → Since h k
  During-Since r here = ([], refl)
  During-Since {h = h} r (next {k = k} {k' = k'} {t = t} w a ok e q z) =
      let one = subst (Since k) (sym q) (step-Since t a k (Reach-Extends (During-Reach r w))) in
      Since-trans h k k' (During-Since r w) one
