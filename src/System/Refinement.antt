-- ===== src/System/Refinement.antt =====
-- What `rcu_protected` is to its users: an object that all see, and updates that wait for it.
pub mod Growth
use mathlib.Core.List.{reverse, append_assoc, append_cancel_right}
use writeboost_rcu.Common.{
  apply_all, ℕ, ◌<◌, ◌⊎◌, ◌^◌, ◌≡◌, refl, ap, sym, subst, ◌∙◌, inl, inr, some, List, [], ◌∷◌, ◌++◌,
  length, ℕ_discrete, arith,
}
use writeboost_rcu.Rcu.{Config}
use writeboost_rcu.Threads.{WritePc, publishing}
use writeboost_rcu.System.{
  System, History, Action, call, write, step, record_write, record_step, nothing_yet, Reach, begin,
  later,
}
use writeboost_rcu.System.Moves.{Stepped, reads, calls, writes, step-Stepped}
use writeboost_rcu.System.Invariant.{Reach-Inv}
use writeboost_rcu.System.Registry.{calls-le}
use writeboost_rcu.System.Order.{Ordered, OrderOk}
use writeboost_rcu.System.Delivery.{Reach-Ordered, published_value, settled_value}
use writeboost_rcu.System.Refinement.Growth.{Extends, Reach-Extends, Shows, record_write-Shows}

-- The abstract object: what a reader sees, and the updates that have their turn, the latest first.
pub record Spec (T : Type 0) : Type 0 where
  pub seen : T
  pub waiting : List (T → T)

-- It takes an update, or makes the oldest that wait visible at once. The list is what it takes.
pub data SpecStep {T : Type 0} (a : Spec T) : List (T → T) → Spec T → Type 0 where
  stutter : SpecStep a [] a
  take : (f : T → T) → SpecStep a (f ∷ []) (record a { waiting = f ∷ a.waiting })
  publish :
      (rest oldest : List (T → T))
      → a.waiting ≡ rest ++ oldest
      → SpecStep a [] (record { seen = apply_all oldest a.seen; waiting = rest })

-- The states that it comes to from `v` by taking the updates of a list, the latest first, and no others.
pub data SpecReach {T : Type 0} (v : T) : List (T → T) → Spec T → Type 0 where
  initially : SpecReach v [] (record { seen = v; waiting = [] })
  go :
      {fs new : List (T → T)} {a a' : Spec T}
      → SpecReach v fs a
      → SpecStep a new a'
      → SpecReach v (new ++ fs) a'

module _ {T : Type 0} where
  -- The abstract object that a run stands for.
  abbrev pub Implements : T → History T → Spec T → Type 0
  Implements v h a = (a.seen ≡ apply_all h.published v) × (h.accepted ≡ a.waiting ++ h.published)

  -- A step of the abstract object, which takes what has newly had its turn.
  abbrev Simulated : T → History T → Spec T → History T → Type 0
  Simulated v h a k =
      (new : List (T → T)) × (a' : Spec T) × SpecStep a new a'
      × Implements v k a'
      × (k.accepted ≡ new ++ h.accepted)

  pub apply_all-append :
      (fs gs : List (T → T)) (v : T) → apply_all (fs ++ gs) v ≡ apply_all fs (apply_all gs v)
  apply_all-append [] gs v = refl
  apply_all-append (f ∷ fs) gs v = ap f (apply_all-append fs gs v)

  -- A publication makes visible what was performed, the oldest of what waited.
  publication :
      (v : T) (h k : History T) (queue : List (T → T)) (a : Spec T)
      → Implements v h a
      → Extends h
      → h.accepted ≡ reverse queue ++ h.performed
      → k.accepted ≡ h.accepted
      → k.published ≡ h.performed
      → Simulated v h a k
  publication v h k queue a (seen, waits) (recent, more) order accepted published = (
    [],
    record { seen = apply_all recent a.seen; waiting = reverse queue },
    publish (reverse queue) recent
        (append_cancel_right a.waiting (reverse queue ++ recent) h.published split),
    (
      ap (apply_all recent) seen
          ∙ sym (apply_all-append recent h.published v)
          ∙ ap (λ fs. apply_all fs v) (sym more ∙ sym published),
      accepted ∙ order ∙ ap (λ fs. reverse queue ++ fs) (sym published),
    ),
    accepted,
  )
    where
      split : a.waiting ++ h.published ≡ (reverse queue ++ recent) ++ h.published
      split =
          sym waits
          ∙ order
          ∙ ap (λ fs. reverse queue ++ fs) more
          ∙ sym (append_assoc (reverse queue) recent h.published)

  -- A step that changes nothing but what has its turn.
  taking :
      (v : T) (h k : History T) (f : T → T) (a : Spec T)
      → Implements v h a
      → k.accepted ≡ f ∷ h.accepted
      → k.published ≡ h.published
      → Simulated v h a k
  taking v h k f a (seen, waits) accepted published = (
    f ∷ [],
    record a { waiting = f ∷ a.waiting },
    take f,
    (
      seen ∙ ap (λ fs. apply_all fs v) (sym published),
      accepted ∙ ap (λ fs. f ∷ fs) waits ∙ ap (λ fs. (f ∷ a.waiting) ++ fs) (sym published),
    ),
    accepted,
  )

  nothing_new :
      (v : T) (h k : History T) (a : Spec T)
      → Implements v h a
      → k.accepted ≡ h.accepted
      → k.published ≡ h.published
      → Simulated v h a k
  nothing_new v h k a (seen, waits) accepted published = (
    [],
    a,
    stutter,
    (
      seen ∙ ap (λ fs. apply_all fs v) (sym published),
      accepted ∙ waits ∙ ap (λ fs. a.waiting ++ fs) (sym published),
    ),
    accepted,
  )

  simulate :
      {c : Config} {s s' : System T} {act : Action T} (v : T) (h : History T) (a : Spec T)
      → Stepped c s act s'
      → Ordered c h s
      → Extends h
      → Implements v h a
      → Simulated v h a (record_step s act h)
  simulate v h a (reads i lt) order more imp = ([], a, stutter, imp, refl)
  simulate {s = s} v h a (calls i f lt e) order more imp = elim (ℕ_discrete s.update_cnt 0) [
    | yes first ↦ taking v h (record_step s (call i f) h) f a imp (ground (arith, first)) refl
    | no later_on ↦ nothing_new v h (record_step s (call i f) h) a imp (ground arith) refl
  ]
  simulate {c} {s} v h a (writes i fresh lt e) order more imp =
      elim (record_write-Shows s.rcu (s.writes i) h) [
        | inl (accepted, published) ↦
            nothing_new v h (record_write s.rcu (s.writes i) h) a imp accepted published
        | inr (inl (f, accepted, published)) ↦
            taking v h (record_write s.rcu (s.writes i) h) f a imp accepted published
        | inr (inr (p, fin, cnt, place, accepted, published)) ↦
            publication v h (record_write s.rcu (s.writes i) h) s.update_queue a imp more
              (subst (OrderOk h.accepted h.performed s.update_queue) place (order.turn i lt))
              accepted published
      ]

  runs :
      {c : Config} {p₀ : ℕ} {v : T} {h : History T} {s : System T}
      → Reach c p₀ v h s
      → length h.calls < 2 ^ 64
      → (a : Spec T) × SpecReach v h.accepted a × Implements v h a
  runs {v = v} begin fits = (record { seen = v; waiting = [] }, initially, (refl, refl))
  runs {c} {v = v} (later {h = h} {s = s} r act ok e q) fits =
      let few : length h.calls < 2 ^ 64 = omega (arith, calls-le h s act q) in
      let (a, way, imp) = runs r few in
      let (new, a', one, imp', took) =
        simulate v h a (step-Stepped c s act e) (Reach-Ordered r few) (Reach-Extends r) imp in
      (
        a',
        subst (λ fs. SpecReach v fs a') (sym (ap (λ (k : History T). k.accepted) q ∙ took))
            (go way one),
        subst (λ k. Implements v k a') (sym q) imp',
      )

  -- Once the count is zero, nothing waits.
  settled :
      {c : Config} {p₀ : ℕ} {v : T} {h : History T} {s : System T} (a : Spec T)
      → Reach c p₀ v h s
      → length h.calls < 2 ^ 64
      → h.accepted ≡ a.waiting ++ h.published
      → (0 < s.update_cnt) ⊎ (a.waiting ≡ [])
  settled {h = h} {s = s} a r fits waits = elim (ℕ_discrete s.update_cnt 0) [
    | yes z ↦ inr (
        append_cancel_right a.waiting [] h.published
          (sym waits ∙ sym (settled_value r fits z).1 ∙ (Reach-Inv r fits).values.quiet z))
    | no busy ↦ inl (omega arith)
  ]

  -- Every state that some interleaving with fewer than 2^64 calls of `update` leads to implements the
  -- abstract object: the abstract object, taking the updates that had their turn, in that order and no
  -- others, comes to a state where what is seen is what `m_ptr` leads to, and what waits is what had
  -- its turn and is not published, and once the count is zero nothing waits, so that all are seen.
  pub refinement :
      {c : Config} {p₀ : ℕ} {v : T} {h : History T} {s : System T}
      → Reach c p₀ v h s
      → length h.calls < 2 ^ 64
      → (a : Spec T) × SpecReach v h.accepted a
        × (s.heap s.ptr ≡ some a.seen)
        × (h.accepted ≡ a.waiting ++ h.published)
        × ((0 < s.update_cnt) ⊎ (a.waiting ≡ []))
  refinement {v = v} r fits =
      let (a, way, imp) = runs r fits in
      (a, way, published_value r fits ∙ ap some (sym imp.0), imp.1, settled a r fits imp.1)
