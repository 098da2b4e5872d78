-- ===== src/Numa/Batches.antt =====
-- What the inner loops of `do_updates` perform.
use writeboost_rcu.Common.{
  ℕ, suc, ◌+◌, ◌^◌, ◌≤◌, ◌<◌, ◌≡◌, refl, ap, some, List, [], ◌∷◌, ◌++◌, length, arith, update, ◌⊎◌,
  inl, inr, dec_lt, ℕ_discrete,
}
use writeboost_rcu.Rcu.{Config, succ64}
use writeboost_rcu.Numa.{Cell, object, invoke}
use writeboost_rcu.Numa.Updates.{Batch, collect}

-- The object `v` after the updates of a queue, of which the oldest stands first.
abbrev pub apply_queue {ℓ} : {T : Type ℓ} → List (T → T) → T → T
apply_queue [] v = v
apply_queue (f ∷ fs) v = apply_queue fs (f v)

module _ {T : Type 0} (c : Config) (copied cnt : ℕ) where
  pub invoke_lem :
      (h : ℕ → Cell T) (v : T) (f : T → T)
      → h copied ≡ object v
      → (h' : ℕ → Cell T) × (invoke h copied f ≡ some h') × (h' copied ≡ object (f v))
  unfolding invoke
  invoke_lem h v f e = (update h copied (object (f v)), ground (arith, e), ground arith)

  -- With `done` up to `updateCnt`, fewer updates than the threshold in the batch, the missing ones in
  -- the queue and an object at `copied`, the inner loops end: they have performed a first part of the
  -- queue in order on the copy, at most up to the threshold, and stop only because `updateCnt` or the
  -- threshold is reached.
  pub collect_lem :
      (h : ℕ → Cell T) (v : T) (fin unflushed : ℕ) (queue : List (T → T))
      → h copied ≡ object v
      → fin ≤ cnt
      → cnt < 2 ^ 64
      → unflushed < c.flushing_threshold
      → c.flushing_threshold < 2 ^ 64
      → cnt ≤ fin + length queue
      → (b : Batch T) × (performed : List (T → T)) × (collect c copied cnt h fin unflushed queue
          ≡ some b)
        × (queue ≡ performed ++ b.queue)
        × (b.heap copied ≡ object (apply_queue performed v))
        × (b.fin ≡ fin + length performed)
        × (b.fin ≤ cnt)
        × (unflushed + length performed ≤ c.flushing_threshold)
        × ((b.fin ≡ cnt) ⊎ (unflushed + length performed ≡ c.flushing_threshold))
  unfolding collect
  collect_lem h v fin unflushed [] e p q s t u = (
    record { heap = h; queue = []; fin = fin },
    [],
    ground arith,
    refl,
    e,
    omega arith,
    p,
    omega arith,
    inl (omega arith),
  )
  collect_lem h v fin unflushed (f ∷ rest) e p q s t u = elim (dec_lt fin cnt) [
    | no end ↦ (
      record { heap = h; queue = f ∷ rest; fin = fin },
      [],
      ground arith,
      refl,
      e,
      omega arith,
      p,
      omega arith,
      inl (omega arith),
    )
    | yes more ↦
        let (h', run, e') = invoke_lem h v f e in
        elim (ℕ_discrete (suc unflushed) c.flushing_threshold) [
          | yes full ↦ (
            record { heap = h'; queue = rest; fin = succ64 fin },
            f ∷ [],
            ground (arith, run),
            refl,
            e',
            omega arith,
            omega arith,
            omega arith,
            inr (omega arith),
          )
          | no space ↦
              let (b, performed, go, split, at, fin', below, bound, why) =
                collect_lem h' (f v) (succ64 fin) (succ64 unflushed) rest e' (omega arith) q
                  (omega arith) t (omega arith) in
              (
                b,
                f ∷ performed,
                ground (arith, run, go),
                ap (λ q. f ∷ q) split,
                at,
                omega arith,
                below,
                omega arith,
                elim why [ inl x ↦ inl x | inr y ↦ inr (omega arith) ],
              )
        ]
  ]
