-- ===== src/System/Refinement/Growth.antt =====
-- What a step adds to what was performed, to what is published and to what has its turn.
use writeboost_rcu.Common.{
  ℕ, ◌≡◌, refl, ap, sym, subst, ◌∙◌, ◌⊎◌, inl, inr, ltb, Bool-cases, List, [], ◌∷◌, ◌++◌,
}
use writeboost_rcu.Rcu.{Config, Rcu}
use writeboost_rcu.Threads.{WritePc, enqueueing, copied, working, publishing}
use writeboost_rcu.System.{
  System, History, Action, read, call, write, record_write, record_step, perform_first, Reach,
  begin, later,
}

module _ {T : Type 0} where
  -- What a step in `update` adds to what was performed and published.
  abbrev pub Grows : History T → History T → Type 0
  Grows h k =
      ((k.performed ≡ h.performed) × (k.published ≡ h.published))
      ⊎ ((f : T → T) × (k.performed ≡ f ∷ h.performed) × (k.published ≡ h.published))
      ⊎ ((k.performed ≡ h.performed) × (k.published ≡ h.performed))

  perform_first-Grows : (h : History T) (queue : List (T → T)) → Grows h (perform_first h queue)
  perform_first-Grows h [] = inl (refl, refl)
  perform_first-Grows h (f ∷ rest) = inr (inl (f, refl, refl))

  pub record_write-Grows :
      (r : Rcu T) (pc : WritePc T) (h : History T) → Grows h (record_write r pc h)
  record_write-Grows r (copied f p) h = inr (inl (f, refl, refl))
  record_write-Grows r (publishing p fin cnt) h = inr (inr (refl, refl))
  record_write-Grows r (working p fin cnt unflushed) h = elim (Bool-cases (ltb fin cnt)) [
    | inl more ↦ rw more (perform_first-Grows h r.update_queue)
    | inr all ↦ rw all (inl (refl, refl))
  ]
  record_write-Grows r (enqueueing f) h = inl (refl, refl)
  record_write-Grows r _ h = inl (refl, refl)

  -- What was performed is what is published after some more.
  abbrev pub Extends : History T → Type 0
  Extends h = (recent : List (T → T)) × (h.performed ≡ recent ++ h.published)

  Grows-Extends : (h k : History T) → Grows h k → Extends h → Extends k
  Grows-Extends h k (inl (p, q)) (recent, e) = (recent, p ∙ e ∙ ap (λ x. recent ++ x) (sym q))
  Grows-Extends h k (inr (inl (f, p, q))) (recent, e) =
      (f ∷ recent, p ∙ ap (λ x. f ∷ x) (e ∙ ap (λ x. recent ++ x) (sym q)))
  Grows-Extends h k (inr (inr (p, q))) (recent, e) = ([], p ∙ sym q)

  record_step-Extends :
      (s : System T) (a : Action T) (h : History T) → Extends h → Extends (record_step s a h)
  record_step-Extends s (read i) h e = e
  record_step-Extends s (call i f) h e = e
  record_step-Extends s (write i fresh) h e =
      Grows-Extends h (record_write s.rcu (s.writes i) h) (record_write-Grows s.rcu (s.writes i) h)
        e

  -- What was performed is what is published and some more.
  pub Reach-Extends :
      {c : Config} {p₀ : ℕ} {v : T} {h : History T} {s : System T} → Reach c p₀ v h s → Extends h
  Reach-Extends begin = ([], refl)
  Reach-Extends (later {h = h} {s = s} r a ok e q) =
      subst Extends (sym q) (record_step-Extends s a h (Reach-Extends r))

  -- What a step in `update` does for the users.
  abbrev pub Shows : WritePc T → History T → History T → Type 0
  Shows pc h k =
      ((k.accepted ≡ h.accepted) × (k.published ≡ h.published))
      ⊎ ((f : T → T) × (k.accepted ≡ f ∷ h.accepted) × (k.published ≡ h.published))
      ⊎ ((p fin cnt : ℕ) × (pc ≡ publishing p fin cnt)
          × (k.accepted ≡ h.accepted)
          × (k.published ≡ h.performed))

  perform_first-Shows :
      (h : History T) (queue : List (T → T))
      → ((perform_first h queue).accepted ≡ h.accepted)
        × ((perform_first h queue).published ≡ h.published)
  perform_first-Shows h [] = (refl, refl)
  perform_first-Shows h (f ∷ rest) = (refl, refl)

  pub record_write-Shows :
      (r : Rcu T) (pc : WritePc T) (h : History T) → Shows pc h (record_write r pc h)
  record_write-Shows r (enqueueing f) h = inr (inl (f, refl, refl))
  record_write-Shows r (publishing p fin cnt) h = inr (inr (p, fin, cnt, refl, refl, refl))
  record_write-Shows r (working p fin cnt unflushed) h = elim (Bool-cases (ltb fin cnt)) [
    | inl more ↦ rw more (inl (perform_first-Shows h r.update_queue))
    | inr all ↦ rw all (inl (refl, refl))
  ]
  record_write-Shows r (copied f p) h = inl (refl, refl)
  record_write-Shows r _ h = inl (refl, refl)
