-- ===== src/System/Stages.antt =====
-- How far a call of `update` has come that began as the updater, and what is published by then.
use mathlib.Core.List.{append_assoc}
use writeboost_rcu.Common.{
  ℕ, ◌≤◌, ◌<◌, ◌≡◌, ◌≢◌, ◌⊎◌, ap, sym, subst, ◌∙◌, inl, inr, List, [], ◌∷◌, ◌++◌, total,
  Option-cases, update, ℕ_discrete, arith,
}
use writeboost_rcu.Rcu.{Config, Rcu, get_copy}
use writeboost_rcu.Threads.{done, WritePc, idle, registered, copied, write_step, call_step}
use writeboost_rcu.System.{System, History, Action, record_write, record_step}
use writeboost_rcu.System.Moves.{Stepped, reads, calls, writes}
use writeboost_rcu.System.Registry.{is_updater}
use writeboost_rcu.System.Values.{write_waiting}
use writeboost_rcu.System.Carried.{not_updater}
use writeboost_rcu.System.Refinement.Growth.{Grows, record_write-Grows}
use writeboost_rcu.System.Freshness.Publications.{Since}

module _ {T : Type 0} (f : T → T) (before : List (T → T)) where
  -- `f` comes right after what was there before.
  abbrev pub Follows : List (T → T) → Type 0
  Follows fs = (newer : List (T → T)) × (fs ≡ newer ++ f ∷ before)

  -- Where the call of `update` with `f` is: before its callback has run, after that, and after the
  -- return.
  abbrev pub Stage : History T → WritePc T → Type 0
  Stage k pc =
      (((pc ≡ registered f) ⊎ ((p : ℕ) × (pc ≡ copied f p))) × (k.performed ≡ before))
      ⊎ ((is_updater pc ≡ 1) × Follows k.performed)
      ⊎ Follows k.published

  Grows-Follows : (h k : History T) → Grows h k → Follows h.performed → Follows k.performed
  Grows-Follows h k (inl (p, q)) (newer, e) = (newer, p ∙ e)
  Grows-Follows h k (inr (inl (g, p, q))) (newer, e) = (g ∷ newer, p ∙ ap (λ xs. g ∷ xs) e)
  Grows-Follows h k (inr (inr (p, q))) (newer, e) = (newer, p ∙ e)

  Since-Follows : (h k : History T) → Since h k → Follows h.published → Follows k.published
  Since-Follows h k (more, q) (newer, e) =
      (more ++ newer, q ∙ ap (λ xs. more ++ xs) e ∙ sym (append_assoc more newer (f ∷ before)))

  -- The updater's own first steps.
  from_registered :
      (c : Config) (fresh : ℕ) (r : Rcu T) {r' : Rcu T} {pc' : WritePc T}
      → write_step c fresh r (registered f) ≡ done (r', pc')
      → (p : ℕ) × (pc' ≡ copied f p)
  unfolding write_step
  from_registered c fresh r e = elim (Option-cases (get_copy r fresh)) [
    | inl d ↦ absurd (ground arith)
    | inr ((p, k), d) ↦ (p, ground arith)
  ]

  from_copied :
      (c : Config) (fresh p : ℕ) (r : Rcu T) {r' : Rcu T} {pc' : WritePc T}
      → write_step c fresh r (copied f p) ≡ done (r', pc')
      → is_updater pc' ≡ 1
  unfolding write_step
  from_copied c fresh p r e = ground arith

  -- Where the updater stops it has set the count to 0.
  stops :
      (c : Config) (fresh : ℕ) (r : Rcu T) {r' : Rcu T} {pc' : WritePc T} (pc : WritePc T)
      → write_step c fresh r pc ≡ done (r', pc')
      → is_updater pc ≡ 1
      → (is_updater pc' ≡ 1) ⊎ (r'.update_cnt ≡ 0)
  unfolding write_step
  stops c fresh r idle e u = absurd (ground arith)
  stops c fresh r _ e u = ground arith

  -- The updater's step.
  own_write :
      (c : Config) (fresh : ℕ) (h : History T) (r : Rcu T) {r' : Rcu T} {pc' : WritePc T}
      (pc : WritePc T)
      → write_step c fresh r pc ≡ done (r', pc')
      → (r'.update_cnt ≡ 0 → (record_write r pc h).performed ≡ (record_write r pc h).published)
      → Since h (record_write r pc h)
      → Stage h pc
      → Stage (record_write r pc h) pc'
  own_write c fresh h r {r'} {pc'} pc e quiet since (inl (inl place, same)) =
      let (p, next_place) =
        from_registered c fresh r {r' = r'} {pc' = pc'}
          (subst (λ x. write_step c fresh r x ≡ done (r', pc')) place e) in
      inl (inr (p, next_place), ap (λ x. (record_write r x h).performed) place ∙ same)
  own_write c fresh h r {r'} {pc'} pc e quiet since (inl (inr (p, place), same)) = inr (
      inl (
        from_copied c fresh p r {r' = r'} {pc' = pc'}
            (subst (λ x. write_step c fresh r x ≡ done (r', pc')) place e),
        ([], ap (λ x. (record_write r x h).performed) place ∙ ap (λ xs. f ∷ xs) same),
      ))
  own_write c fresh h r {r'} {pc'} pc e quiet since (inr (inl (updater, follows))) =
      let grown = Grows-Follows h (record_write r pc h) (record_write-Grows r pc h) follows in
      elim (stops c fresh r {r' = r'} {pc' = pc'} pc e updater) [
        | inl still ↦ inr (inl (still, grown))
        | inr z ↦ inr (inr (subst Follows (quiet z) grown))
      ]
  own_write c fresh h r pc e quiet since (inr (inr follows)) =
      inr (inr (Since-Follows h (record_write r pc h) since follows))

  at_start :
      (pc : WritePc T) → (pc ≡ registered f) ⊎ ((p : ℕ) × (pc ≡ copied f p)) → is_updater pc ≡ 1
  at_start pc (inl e) = ap is_updater e
  at_start pc (inr (p, e)) = ap is_updater e

  -- The step of another thread in `update`.
  other_write :
      (c : Config) (v : T) (s : System T) (h : History T) (i j fresh : ℕ) {r' : Rcu T}
      {pc' : WritePc T}
      → i < c.threads
      → j < c.threads
      → i ≢ j
      → total is_updater c.threads s.writes ≤ 1
      → write_step c fresh s.rcu (s.writes j) ≡ done (r', pc')
      → Since h (record_write s.rcu (s.writes j) h)
      → Stage h (s.writes i)
      → Stage (record_write s.rcu (s.writes j) h) (s.writes i)
  other_write c v s h i j fresh li lj apart one e since (inl (place, same)) =
      let updater : is_updater (s.writes i) ≢ 0 =
        λ z. absurd (omega (arith, at_start (s.writes i) place, z)) in
      let z = not_updater c s i j li lj apart one updater in
      let (heap, performed, published) = write_waiting v c fresh h s.rcu (s.writes j) e z in
      inl (place, performed ∙ same)
  other_write c v s h i j fresh li lj apart one e since (inr (inl (updater, follows))) = inr (
      inl (
        updater,
        Grows-Follows h (record_write s.rcu (s.writes j) h)
            (record_write-Grows s.rcu (s.writes j) h) follows,
      ))
  other_write c v s h i j fresh li lj apart one e since (inr (inr follows)) =
      inr (inr (Since-Follows h (record_write s.rcu (s.writes j) h) since follows))

  -- Outside, the call has returned.
  pub returned : (h : History T) (pc : WritePc T) → pc ≡ idle → Stage h pc → Follows h.published
  returned h pc out (inl (place, same)) =
      absurd (omega (arith, at_start pc place, ap is_updater out))
  returned h pc out (inr (inl (updater, follows))) =
      absurd (omega (arith, updater, ap is_updater out))
  returned h pc out (inr (inr follows)) = follows

  pub Stepped-Stage :
      {c : Config} {s s' : System T} {a : Action T} (v : T) (h : History T) (i : ℕ)
      → i < c.threads
      → Stepped c s a s'
      → total is_updater c.threads s.writes ≤ 1
      → (s'.update_cnt ≡ 0 → (record_step s a h).performed ≡ (record_step s a h).published)
      → Since h (record_step s a h)
      → Stage h (s.writes i)
      → Stage (record_step s a h) (s'.writes i)
  Stepped-Stage v h i li (reads j lj) one quiet since at = at
  Stepped-Stage {s = s} v h i li (calls j g lj e) one quiet since at = elim (ℕ_discrete j i) [
    | yes same ↦ inr (inr (returned h (s.writes i) (ap (λ n. s.writes n) (sym same) ∙ e) at))
    | no apart ↦
        let eq : s.writes i ≡ update s.writes j (call_step g s.rcu).1 i = ground arith in
        subst (Stage h) eq at
  ]
  Stepped-Stage {c} {s} v h i li (writes j fresh lj {r = r} {pc = pc} e) one quiet since at =
      elim (ℕ_discrete j i) [
        | yes same ↦
            let place : s.writes i ≡ s.writes j = ap (λ n. s.writes n) (sym same) in
            let eq : pc ≡ update s.writes j pc i = ground arith in
            subst (Stage (record_write s.rcu (s.writes j) h)) eq (
              own_write c fresh h s.rcu {r' = r} {pc' = pc} (s.writes j) e quiet since
                (subst (Stage h) place at))
        | no apart ↦
            let eq : s.writes i ≡ update s.writes j pc i = ground arith in
            subst (Stage (record_write s.rcu (s.writes j) h)) eq (
              other_write c v s h i j fresh {r' = r} {pc' = pc} li lj (λ q. apart (sym q)) one e
                since at)
      ]
