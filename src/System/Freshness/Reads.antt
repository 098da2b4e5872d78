-- ===== src/System/Freshness/Reads.antt =====
-- The steps of one thread in `get_ptr` among those of all others.
use mathlib.Core.List.{append_assoc}
use writeboost_rcu.Common.{
  apply_all, ℕ, ◌+◌, ◌≤◌, ◌<◌, ◌^◌, ◌≡◌, ◌⊎◌, refl, ap, sym, subst, ◌∙◌, Bool-cases, ltb, inl, inr,
  some, List, ◌++◌, length, ℕ_discrete, arith, update,
}
use writeboost_rcu.Rcu.{Config, Rcu}
use writeboost_rcu.Heap.{Heap}
use writeboost_rcu.Threads.{done, ReadPc, outside, locking, locked, reading, read_step}
use writeboost_rcu.System.{System, History, Action, read, step, Allocates, Reach}
use writeboost_rcu.System.Moves.{Stepped, reads, calls, writes, step-Stepped}
use writeboost_rcu.System.Registry.{calls-le, read_step-same}
use writeboost_rcu.System.Snapshot.{held_step}
use writeboost_rcu.System.Delivery.{published_value}
use writeboost_rcu.System.Refinement.Growth.{Reach-Extends}
use writeboost_rcu.System.Freshness.{own, During, here, next}
use writeboost_rcu.System.Freshness.Publications.{During-Reach, Since, step-Since, During-Since}

module _ {T : Type 0} where
  -- What a step is to thread `i` in `get_ptr`.
  reads_after :
      {c : Config} {t t' : System T} {a : Action T} (i : ℕ)
      → Stepped c t a t'
      → ((own i a ≡ 0) × (t'.reads i ≡ t.reads i))
        ⊎ ((own i a ≡ 1) × (t'.reads i ≡ (read_step i t.rcu (t.reads i)).1) × (t'.heap ≡ t.heap))
  reads_after {t = t} i (reads j lt) = elim (ℕ_discrete i j) [
    | yes same ↦ inr (
      ground (arith, same),
      ground (arith, same),
      ap (λ (r : Rcu T). r.heap) (read_step-same j t.rcu (t.reads j)).1,
    )
    | no apart ↦ inl (ground (arith, apart), ground (arith, apart))
  ]
  reads_after i (calls j f lt e) = inl (refl, refl)
  reads_after i (writes j fresh lt e) = inl (refl, refl)

  module _ (v : T) (h : History T) where
    -- The object at `p` is a version that was published since `h`.
    abbrev pub Seen : History T → System T → ℕ → Type 0
    Seen k t p =
        (seen newer older : List (T → T)) × (k.published ≡ newer ++ seen)
        × (seen ≡ older ++ h.published)
        × (t.heap p ≡ some (apply_all seen v))

    -- Where a thread stands after `n` steps in `get_ptr`.
    abbrev Stands : ℕ → History T → System T → ReadPc → Type 0
    Stands n k t outside = n ≡ 0
    Stands n k t (locking e) = n ≡ 1
    Stands n k t locked = n ≡ 2
    Stands n k t (reading p) = (n ≡ 3) × Seen k t p

    Seen-step :
        (k k' : History T) (t t' : System T) (p : ℕ) {u : T}
        → Since k k'
        → t.heap p ≡ some u
        → t'.heap p ≡ some u
        → Seen k t p
        → Seen k' t' p
    Seen-step k k' t t' p (more, grown) before after (seen, newer, older, q, since, at) = (
      seen,
      more ++ newer,
      older,
      grown ∙ ap (λ xs. more ++ xs) q ∙ sym (append_assoc more newer seen),
      since,
      after ∙ sym before ∙ at,
    )

    module _ {c : Config} {p₀ : ℕ} (n : ℕ) (k k' : History T) (t t' : System T) (i : ℕ)
        (a : Action T) (r : Reach c p₀ v k t) (fits : length k.calls < 2 ^ 64) (ok : Allocates t a)
        (e : step c t a ≡ done t') where
      still : (pc : ReadPc) → Since k k' → t.reads i ≡ pc → Stands n k t pc → Stands n k' t' pc
      still outside grown at now = now
      still (locking x) grown at now = now
      still locked grown at now = now
      still (reading p) grown at (now, seen) =
          let (u, before, after) = held_step {s' = t'} a i p r fits at ok e in
          (now, Seen-step k k' t t' p grown before after seen)

    -- The load of `m_ptr` gives the version that is published then.
    loaded :
        {c : Config} {p₀ : ℕ} (k k' : History T) (t t' : System T)
        → Reach c p₀ v k t
        → length k.calls < 2 ^ 64
        → Since h k
        → Since k k'
        → t'.heap ≡ t.heap
        → Seen k' t' t.ptr
    loaded k k' t t' r fits (older, since) (newer, grown) same = (
      k.published,
      newer,
      older,
      grown,
      since,
      ap (λ (m : Heap T). m t.ptr) same ∙ published_value r fits,
    )

    onward :
        {c : Config} {p₀ : ℕ} (n : ℕ) (k k' : History T) (t t' : System T)
        → Reach c p₀ v k t
        → length k.calls < 2 ^ 64
        → Since h k
        → Since k k'
        → t'.heap ≡ t.heap
        → n < 3
        → (i : ℕ) (pc : ReadPc) → Stands n k t pc
        → Stands (1 + n) k' t' (read_step i t.rcu pc).1
    unfolding read_step
    onward n k k' t t' r fits since grown same few i outside now = omega (arith, now)
    onward n k k' t t' r fits since grown same few i (locking x) now = omega (arith, now)
    onward n k k' t t' r fits since grown same few i locked now =
        (omega (arith, now), loaded k k' t t' r fits since grown same)
    onward n k k' t t' r fits since grown same few i (reading p) now = absurd (omega (arith, now.0))

    Stepped-Stands :
        {c : Config} {p₀ : ℕ} (i n m : ℕ) (k k' : History T) (t t' : System T) (a : Action T)
        → Reach c p₀ v k t
        → length k.calls < 2 ^ 64
        → Allocates t a
        → step c t a ≡ done t'
        → Since h k
        → Since k k'
        → m ≡ own i a + n
        → m ≤ 3
        → Stands n k t (t.reads i)
        → Stands m k' t' (t'.reads i)
    Stepped-Stands {c} i n m k k' t t' a r fits ok e since grown z few now =
        elim (reads_after i (step-Stepped c t a e)) [
          | inl (none_own, same) ↦
              let eq : n ≡ m = omega (arith, z, none_own) in
              subst (λ x. Stands x k' t' (t'.reads i)) eq
                (subst (Stands n k' t') (sym same)
                  (still n k k' t t' i a r fits ok e (t.reads i) grown refl now))
          | inr (one_own, moved, same) ↦
              let eq : 1 + n ≡ m = omega (arith, z, one_own) in
              subst (λ x. Stands x k' t' (t'.reads i)) eq
                (subst (Stands (1 + n) k' t') (sym moved)
                  (onward n k k' t t' r fits since grown same (omega arith) i (t.reads i) now))
        ]

    During-Stands :
        {c : Config} {i p₀ : ℕ} {s : System T} {n : ℕ} {k : History T} {t : System T}
        → Reach c p₀ v h s
        → s.reads i ≡ outside
        → During c i h s n k t
        → length k.calls < 2 ^ 64
        → n ≤ 3
        → Stands n k t (t.reads i)
    During-Stands {i = i} {s = s} r at here fits few = subst (Stands 0 h s) (sym at) refl
    During-Stands {i = i} {n = m} r at
          (next {n = n} {k = k} {k' = k'} {t = t} {t' = t'} w a ok e q z) fits few =
        let before : length k.calls < 2 ^ 64 = omega (arith, calls-le k t a q) in
        let way = During-Reach r w in
        let grown = subst (Since k) (sym q) (step-Since t a k (Reach-Extends way)) in
        Stepped-Stands i n _ k k' t t' a way before ok e (During-Since r w) grown z few
          (During-Stands r at w before (omega (arith, z)))

  read_proceeds :
      (c : Config) (i : ℕ)
      → i < c.threads
      → (w : System T) → (w' : System T) × (step c w (read i) ≡ done w')
  unfolding step
  read_proceeds c i lt w = elim (Bool-cases (ltb i c.threads)) [
    | inl h ↦ (
      record w {
        rcu = (read_step i w.rcu (w.reads i)).0;
        reads = update w.reads i (read_step i w.rcu (w.reads i)).1;
      },
      rw h refl,
    )
    | inr h ↦ absurd (ground arith)
  ]

  third :
      (v : T) (h k : History T) (t : System T) (n : ℕ) (pc : ReadPc)
      → n ≡ 3
      → Stands v h n k t pc
      → (p : ℕ) × (pc ≡ reading p) × Seen v h k t p
  third v h k t n outside z now = absurd (omega (arith, now))
  third v h k t n (locking e) z now = absurd (omega (arith, now))
  third v h k t n locked z now = absurd (omega (arith, now))
  third v h k t n (reading p) z now = (p, refl, now.1)

  -- A step of a thread in `get_ptr` never waits. And let thread `i` call `get_ptr` in a reachable state:
  -- after three steps of its own, whatever steps of the others go between, it holds a pointer, to the
  -- initial object after a first part of the updates that are published by then, a part that has all
  -- that were published at the call; as long as `update` was called fewer than 2^64 times.
  pub get_ptr_fresh :
      {c : Config} {i p₀ : ℕ} {v : T} {h : History T} {s : System T} {k : History T} {t : System T}
      → Reach c p₀ v h s
      → i < c.threads
      → s.reads i ≡ outside
      → During c i h s 3 k t
      → length k.calls < 2 ^ 64
      → ((w : System T) → (w' : System T) × (step c w (read i) ≡ done w'))
        × ((p : ℕ) × (t.reads i ≡ reading p) × Seen v h k t p)
  get_ptr_fresh {c} {i} {v = v} {h = h} {k = k} {t = t} r lt at w fits = (
    read_proceeds c i lt,
    third v h k t 3 (t.reads i) refl (During-Stands v h r at w fits (omega arith)),
  )
