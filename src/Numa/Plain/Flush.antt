-- ===== src/Numa/Plain/Flush.antt =====
-- One turn of the outer loop of `do_updates` on a machine without NUMA.
use writeboost_rcu.Common.{
  ℕ, ◌+◌, ◌^◌, ◌<◌, ◌≡◌, ◌⊎◌, ap, sym, ◌∙◌, none, some, Option-cases, inl, inr, List, [], ◌∷◌, ◌++◌,
  ◌==◌, bit, ltb, Bool-cases, length, length-append, arith,
}
use writeboost_rcu.Heap.{allocated}
use writeboost_rcu.Heap.Free.{allocated-zero}
use writeboost_rcu.Rcu.{Config, succ64}
use writeboost_rcu.Rcu.Places.{Owns}
use writeboost_rcu.Numa.{Cell, NumaRcu, object, invoke}
use writeboost_rcu.Numa.Updates.{Batch, collect, flush}
use writeboost_rcu.Numa.Batches.{apply_queue, collect_lem}
use writeboost_rcu.Numa.Plain.Memory.{content, contents, NoRaw}
use writeboost_rcu.Numa.Plain.{plain}
use writeboost_rcu.Numa.Plain.Quiet.{Quiet, publish_lem}

module _ {T : Type 0} where
  -- Objects stay where they are, and there are no others.
  abbrev pub SameObjects : (ℕ → Cell T) → (ℕ → Cell T) → Type 0
  SameObjects h h' = NoRaw h' × ((p : ℕ) → allocated (content (h' p)) ≡ allocated (content (h p)))

  pub invoke-SameObjects :
      (h : ℕ → Cell T) (p : ℕ) (f : T → T) {h' : ℕ → Cell T}
      → NoRaw h
      → invoke h p f ≡ some h'
      → SameObjects h h'
  unfolding invoke
  invoke-SameObjects h p f solid e = (ground (arith, solid), λ q. ground (arith, solid p))

  collect-SameObjects :
      (c : Config) (copied cnt : ℕ) (h : ℕ → Cell T) (fin unflushed : ℕ) (queue : List (T → T))
      {b : Batch T}
      → NoRaw h
      → collect c copied cnt h fin unflushed queue ≡ some b
      → SameObjects h b.heap
  unfolding collect
  collect-SameObjects c copied cnt h fin unflushed [] {b} solid e =
      (ground (arith, solid), λ p. ground arith)
  collect-SameObjects c copied cnt h fin unflushed (f ∷ rest) {b} solid e =
      elim (Option-cases (invoke h copied f)) [
        | inl d ↦ (ground (arith, solid), λ p. ground arith)
        | inr (m, d) ↦
            let (solid', same) = invoke-SameObjects h copied f {h' = m} solid d in
            elim (Bool-cases (ltb fin cnt)) [
              | inr end ↦ (ground (arith, solid), λ p. ground arith)
              | inl more ↦ elim (Bool-cases (succ64 unflushed == c.flushing_threshold)) [
                | inl full ↦ (ground (arith, solid'), λ p. ground (arith, same p))
                | inr space ↦
                    let (solid'', same') =
                      collect-SameObjects c copied cnt m (succ64 fin) (succ64 unflushed) rest
                        {b = b} solid' (ground arith) in
                    (solid'', λ p. same' p ∙ same p)
              ]
            ]
      ]

  -- What is so before and after a turn of the outer loop.
  abbrev pub Flushed : Config → NumaRcu T → T → ℕ → NumaRcu T → List (T → T) → Type 0
  Flushed c r v fin' k performed =
      Quiet k
      × (contents k.heap k.ptr ≡ some (apply_queue performed v))
      × Owns (λ _. 0) (plain k)
      × (k.update_cnt ≡ r.update_cnt)
      × ((p : ℕ) → contents r.heap p ≡ none → contents k.heap p ≡ none)
      × (r.update_queue ≡ performed ++ k.update_queue)
      × (fin' + length k.update_queue ≡ r.update_cnt)
      × ((fin' ≡ r.update_cnt) ⊎ (length performed ≡ c.flushing_threshold))

  module _ (c : Config) (small : c.flushing_threshold < 2 ^ 64)
      (some_space : 0 < c.flushing_threshold) where
    pub flush_lem :
        (r : NumaRcu T) (copied fin : ℕ) (v : T)
        → Quiet r
        → Owns (λ p. bit (p == copied)) (plain r)
        → r.heap copied ≡ object v
        → r.update_cnt < 2 ^ 64
        → fin + length r.update_queue ≡ r.update_cnt
        → (fin' : ℕ) × (k : NumaRcu T) × (performed : List (T → T)) × (flush c copied fin r
            ≡ some (fin', k))
          × Flushed c r v fin' k performed
    unfolding flush
    flush_lem r copied fin v quiet own e fits left =
        let (b, performed, run, split, at, fin', below, bound, why) =
          collect_lem c copied r.update_cnt r.heap v fin 0 r.update_queue e (omega arith) fits
            some_space small (omega arith) in
        let (solid, same) =
          collect-SameObjects c copied r.update_cnt r.heap fin 0 r.update_queue {b = b} quiet.2
            run in
        let (k, done, quiet', kept) =
          publish_lem c copied (record r { heap = b.heap; update_queue = b.queue })
            {v = apply_queue performed v} (quiet.0, quiet.1, solid) (λ p. own p ∙ sym (same p))
            (ap content at) in
        (
          b.fin,
          k,
          performed,
          rw (run, done),
          (
            quiet',
            kept.0,
            kept.1,
            kept.2,
            λ p n. kept.4 p (allocated-zero (contents b.heap p) (ground (arith, same p))),
            split ∙ ap (λ q. performed ++ q) (sym kept.3),
            rw kept.3 (ground (arith, split, length-append performed b.queue)),
            elim why [ inl x ↦ inl x | inr y ↦ inr (omega arith) ],
          ),
        )
