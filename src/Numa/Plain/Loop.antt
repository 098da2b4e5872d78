-- ===== src/Numa/Plain/Loop.antt =====
-- `do_updates` on a machine without NUMA, as a whole.
use native.Mathlib.Nat.{add-mul}
use writeboost_rcu.Common.{
  ℕ, zero, suc, ◌+◌, ◌*◌, ◌^◌, ◌≤◌, ◌<◌, ◌≡◌, ◌≢◌, refl, ap, sym, subst, ◌∙◌, none, some, inl, inr,
  List, [], ◌∷◌, ◌++◌, ◌==◌, bit, length, length-append, ℕ_discrete, arith,
}
use writeboost_rcu.Rcu.{Config}
use writeboost_rcu.Rcu.Places.{Owns, Copied}
use writeboost_rcu.Numa.{Cell, NumaRcu, absent, raw, object, get_copy}
use writeboost_rcu.Numa.Updates.{do_updates}
use writeboost_rcu.Numa.Batches.{apply_queue}
use writeboost_rcu.Numa.Plain.Memory.{content, contents}
use writeboost_rcu.Numa.Plain.{plain}
use writeboost_rcu.Numa.Plain.Quiet.{Quiet, copy_lem}
use writeboost_rcu.Numa.Plain.Flush.{Flushed, flush_lem}

module _ {T : Type 0} where
  -- With no update under way: `m_ptr` leads to `v`, and every object is in one place.
  abbrev pub AtRest : NumaRcu T → T → Type 0
  AtRest k v =
      Quiet k
      × (contents k.heap k.ptr ≡ some v)
      × Owns (λ _. 0) (plain k)
      × (k.update_cnt ≡ 0)
      × (k.update_queue ≡ [])

  pub object_at : (a : Cell T) {v : T} → content a ≡ some v → a ≡ object v
  object_at absent e = absurd (ground arith)
  object_at (raw bytes) e = absurd (ground arith)
  object_at (object w) e = ground arith

  apply_queue-append :
      (fs gs : List (T → T)) (v : T) → apply_queue (fs ++ gs) v ≡ apply_queue gs (apply_queue fs v)
  apply_queue-append [] gs v = refl
  apply_queue-append (f ∷ fs) gs v = apply_queue-append fs gs (f v)

  length-zero : (fs : List (T → T)) → length fs ≡ 0 → fs ≡ []
  length-zero [] e = refl
  length-zero (f ∷ fs) e = absurd (omega arith)

  module _ (c : Config) (small : c.flushing_threshold < 2 ^ 64)
      (some_space : 0 < c.flushing_threshold) where
    -- A turn that does not end the loop performs as many updates as the threshold says.
    batch :
        (r : NumaRcu T) (v : T) (k : NumaRcu T) (fin' : ℕ) (performed : List (T → T))
        → Flushed c r v fin' k performed
        → fin' ≢ r.update_cnt
        → (length r.update_queue ≡ c.flushing_threshold + length k.update_queue)
          × (fin' + length k.update_queue ≡ r.update_cnt)
    batch r v k fin' performed (quiet, at, own, cnt, none', split, left, why) more = elim why [
      | inl all ↦ absurd (more all)
      | inr full ↦ (
        ap length split
            ∙ length-append performed k.update_queue
            ∙ ap (λ n. n + length k.update_queue) full,
        left,
      )
    ]

    module _ (node : ℕ) (alloc : ℕ → ℕ) (apart : (m n : ℕ) → m < n → alloc m ≢ alloc n) where
      -- The rest of the loop, after a publication that leaves calls to serve.
      Rest : ℕ → NumaRcu T → ℕ → T → Type 0
      Rest fuel k fin v =
          (next : ℕ) (k' : NumaRcu T)
          → get_copy k node (alloc fuel) ≡ some (next, k')
          → Quiet k'
          → Copied (plain k) (alloc fuel) next v (plain k')
          → (r' : NumaRcu T) × (do_updates c node alloc fuel next fin k' ≡ some r')
            × AtRest r' (apply_queue k.update_queue v)

      turn :
          (fuel : ℕ) (r : NumaRcu T) (copied fin : ℕ) (v : T)
          → Quiet r
          → Owns (λ p. bit (p == copied)) (plain r)
          → r.heap copied ≡ object v
          → r.update_cnt < 2 ^ 64
          → fin + length r.update_queue ≡ r.update_cnt
          → contents r.heap (alloc fuel) ≡ none
          → ((k : NumaRcu T) (fin' : ℕ) (performed : List (T → T))
              → Flushed c r v fin' k performed
              → fin' ≢ r.update_cnt
              → Rest fuel k fin' (apply_queue performed v))
          → (k : NumaRcu T) × (do_updates c node alloc (suc fuel) copied fin r ≡ some k)
            × AtRest k (apply_queue r.update_queue v)
      unfolding do_updates Rest
      turn fuel r copied fin v quiet own e fits left new rest =
          let (fin', k, performed, run, flushed) =
            flush_lem c small some_space r copied fin v quiet own e fits left in
          let (quiet', at, own', cnt, none', split, left', why) = flushed in
          let value =
            ap (λ q. apply_queue q v) split ∙ apply_queue-append performed k.update_queue v in
          elim (ℕ_discrete fin' k.update_cnt) [
            | yes all ↦
                let empty = length-zero k.update_queue (omega arith) in
                (
                  record k { update_cnt = 0 },
                  rw run (ground (arith, all)),
                  (
                    quiet',
                    at
                        ∙ ap some
                            (sym (value ∙ ap (λ q. apply_queue q (apply_queue performed v)) empty)),
                    own',
                    refl,
                    empty,
                  ),
                )
            | no more ↦
                let (next, k', got, solid, ok) =
                  copy_lem k node (alloc fuel) {v = apply_queue performed v} quiet' own'
                    (none' (alloc fuel) new) at in
                let (r', go, done) =
                  rest k fin' performed flushed (λ z. more (z ∙ sym cnt)) next k' got solid ok in
                (r', rw run (ground (arith, got, go, more)), subst (AtRest r') (sym value) done)
          ]

      pub loop_lem :
          (fuel : ℕ) (r : NumaRcu T) (copied fin : ℕ) (v : T)
          → Quiet r
          → Owns (λ p. bit (p == copied)) (plain r)
          → r.heap copied ≡ object v
          → r.update_cnt < 2 ^ 64
          → fin + length r.update_queue ≡ r.update_cnt
          → length r.update_queue ≤ suc fuel * c.flushing_threshold
          → ((n : ℕ) → n ≤ fuel → contents r.heap (alloc n) ≡ none)
          → (k : NumaRcu T) × (do_updates c node alloc (suc fuel) copied fin r ≡ some k)
            × AtRest k (apply_queue r.update_queue v)
      unfolding Rest
      loop_lem zero r copied fin v quiet own e fits left enough new =
          turn zero r copied fin v quiet own e fits left (new 0 (omega arith))
            (λ k fin' performed flushed more.
              absurd (more (omega (arith, batch r v k fin' performed flushed more))))
      loop_lem (suc fuel) r copied fin v quiet own e fits left enough new =
          turn (suc fuel) r copied fin v quiet own e fits left (new (suc fuel) (omega arith))
            (λ k fin' performed flushed more next k' got solid (at, own', cnt, queue, none').
              let full = batch r v k fin' performed flushed more in
              subst
                (λ q.
                  (r' : NumaRcu T) × (do_updates c node alloc (suc fuel) next fin' k' ≡ some r')
                  × AtRest r' (apply_queue q (apply_queue performed v)))
                queue
                (loop_lem fuel k' next fin' (apply_queue performed v) solid own'
                  (object_at (k'.heap next) at) (omega (arith, flushed.3))
                  (rw queue (omega (arith, flushed.3, flushed.6)))
                  (rw queue (omega (arith, add-mul 1 (suc fuel) c.flushing_threshold)))
                  (λ n below.
                    none' (alloc n) (apart n (suc fuel) (omega arith))
                      (flushed.4 (alloc n) (new n (omega arith))))))
