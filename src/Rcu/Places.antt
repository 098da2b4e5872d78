-- ===== src/Rcu/Places.antt =====
-- Where an `rcu_protected` object keeps addresses, and what its functions do to them.
use writeboost_rcu.Common.{
  ℕ, ◌+◌, ◌≡◌, ◌≢◌, ◌∙◌, refl, sym, true, false, not, Bool-cases, ◌||◌, none, some, List, [], ◌∷◌,
  ◌==◌, bit, count, update, arith, inl, inr,
}
use writeboost_rcu.Heap.{Heap, allocated, free_all}
use writeboost_rcu.Heap.Free.{
  allocated-some, allocated-zero, free_all-count, free_all_total, free-some, free_all-none,
  free_all-keeps,
}
use mathlib.Core.Option
use writeboost_rcu.Rcu.{
  Config, Rcu, set_list, destroy, get_copy, retire, exchange, push_retired, retire_pushed,
  below_threshold, prev_is_clear, reclaim, flip,
}

module _ {T : Type 0} where
  -- How many places of the `rcu_protected` object hold `p`.
  abbrev pub places : Rcu T → ℕ → ℕ
  places r p =
      bit (p == r.ptr)
      + count p (r.retire_lists false)
      + count p (r.retire_lists true)
      + count p r.finished

  -- A loop of deletions over one of the parts that together hold what there is.
  free_part :
      (h : Heap T) (ps : List ℕ) (rest : ℕ → ℕ)
      → ((p : ℕ) → count p ps + rest p ≡ allocated (h p))
      → (h' : Heap T) × (free_all h ps ≡ some h') × ((p : ℕ) → rest p ≡ allocated (h' p))
  free_part h ps rest own =
      let (h', e) = free_all_total h ps (λ p. omega (arith, own p)) in
      (h', e, λ p. omega (arith, own p, free_all-count h ps p {h' = h'} e))

  -- Every object is in one place, or else `own` knows it.
  abbrev pub Owns : (ℕ → ℕ) → Rcu T → Type 0
  Owns own r = (p : ℕ) → places r p + own p ≡ allocated (r.heap p)

  -- The deletions of `destroy` do not touch an address that is in no place.
  kept_through :
      (r : Rcu T) (p : ℕ) {h₂ h₃ h₄ : Heap T}
      → places r p ≡ 0
      → free_all (update r.heap r.ptr none) (r.retire_lists false) ≡ some h₂
      → free_all h₂ (r.retire_lists true) ≡ some h₃
      → free_all h₃ r.finished ≡ some h₄
      → h₄ p ≡ r.heap p
  kept_through r p {h₂} {h₃} {h₄} away e₂ e₃ e₄ =
      free_all-keeps h₃ r.finished p {h' = h₄} e₄ (omega (arith, away))
      ∙ free_all-keeps h₂ (r.retire_lists true) p {h' = h₃} e₃ (omega (arith, away))
      ∙ free_all-keeps (update r.heap r.ptr none) (r.retire_lists false) p {h' = h₂} e₂
          (omega (arith, away))
      ∙ ground (arith, away)

  -- `destroy` takes away what is in the places, and leaves the rest.
  pub destroy-Owns :
      (r : Rcu T) (own : ℕ → ℕ)
      → Owns own r
      → (h : Heap T) × (destroy r ≡ some h)
        × ((p : ℕ) → own p ≡ allocated (h p))
        × ((p : ℕ) → places r p ≡ 0 → h p ≡ r.heap p)
  unfolding destroy
  destroy-Owns r own all =
      let (v, d) = allocated-some (r.heap r.ptr) (ground (arith, all r.ptr)) in
      let (h₂, e₂, own₂) =
        free_part (update r.heap r.ptr none) (r.retire_lists false)
          (λ p. count p (r.retire_lists true) + count p r.finished + own p)
          (λ p. ground (arith, all p)) in
      let (h₃, e₃, own₃) =
        free_part h₂ (r.retire_lists true) (λ p. count p r.finished + own p)
          (λ p. omega (arith, own₂ p)) in
      let (h₄, e₄, own₄) = free_part h₃ r.finished own own₃ in
      (
        h₄,
        rw (free-some r.heap r.ptr d, e₂, e₃) e₄,
        own₄,
        λ p away. kept_through r p {h₂ = h₂} {h₃ = h₃} {h₄ = h₄} away e₂ e₃ e₄,
      )

  pub destroy-places :
      (r : Rcu T)
      → ((p : ℕ) → places r p ≡ allocated (r.heap p))
      → (h : Heap T) × (destroy r ≡ some h) × ((p : ℕ) → h p ≡ none)
  destroy-places r own =
      let (h, e, left, kept) = destroy-Owns r (λ _. 0) (λ p. omega (arith, own p)) in
      (h, e, λ p. allocated-zero (h p) (sym (left p)))

  -- What `get_copy` comes to: a copy of `v` that only the caller knows.
  abbrev pub Copied : Rcu T → ℕ → ℕ → T → Rcu T → Type 0
  Copied r fresh copied v k =
      (k.heap copied ≡ some v)
      × Owns (λ p. bit (p == copied)) k
      × (k.update_cnt ≡ r.update_cnt)
      × (k.update_queue ≡ r.update_queue)
      × ((p : ℕ) → p ≢ fresh → r.heap p ≡ none → k.heap p ≡ none)

  pub get_copy-Owns :
      (r : Rcu T) (fresh : ℕ) {v : T} (pool : List ℕ)
      → r.finished ≡ pool
      → Owns (λ _. 0) r
      → r.heap fresh ≡ none
      → r.heap r.ptr ≡ some v
      → (copied : ℕ) × (k : Rcu T) × (get_copy r fresh ≡ some (copied, k))
        × Copied r fresh copied v k
  unfolding get_copy
  get_copy-Owns r fresh {v} [] q own new e = (
    fresh,
    record r { heap = update r.heap fresh (some v) },
    ground (arith, q, e),
    (ground arith, λ p. ground (arith, own p, new), refl, refl, λ p apart n. ground arith),
  )
  get_copy-Owns r fresh {v} (pooled ∷ rest) q own new e =
      let (w, d) = allocated-some (r.heap pooled) (ground (arith, own pooled)) in
      (
        pooled,
        record r { heap = update r.heap pooled (some v); finished = rest },
        ground (arith, q, e, d),
        (
          ground arith,
          λ p. ground (arith, own p, d, q),
          refl,
          refl,
          λ p apart n. ground (arith, d),
        ),
      )

  -- What `retire` comes to once the address is in its list: `m_ptr` still leads to its object.
  abbrev pub Kept : Rcu T → T → Rcu T → Type 0
  Kept r v k =
      (k.heap k.ptr ≡ some v)
      × Owns (λ _. 0) k
      × (k.update_cnt ≡ r.update_cnt)
      × (k.update_queue ≡ r.update_queue)
      × ((p : ℕ) → r.heap p ≡ none → k.heap p ≡ none)

  reclaim-Owns :
      (r : Rcu T) {v : T}
      → Owns (λ _. 0) r
      → r.heap r.ptr ≡ some v
      → (k : Rcu T) × (Option.map flip (reclaim r) ≡ some k) × Kept r v k
  unfolding reclaim flip
  reclaim-Owns r {v} own e =
      let (h, d) = free_all_total r.heap r.finished (λ p. ground (arith, own p)) in
      let kept = free_all-keeps r.heap r.finished r.ptr {h' = h} d (ground (arith, own r.ptr)) in
      (
        record r {
          heap = h;
          retire_lists = set_list r.retire_lists (not r.epoch) [];
          finished = r.retire_lists (not r.epoch);
          epoch = not r.epoch;
        },
        rw d,
        (
          kept ∙ e,
          λ p. ground (arith, own p, free_all-count r.heap r.finished p {h' = h} d),
          refl,
          refl,
          λ p n. free_all-none r.heap r.finished p {h' = h} d n,
        ),
      )

  retire_pushed-Owns :
      (c : Config) (r : Rcu T) {v : T}
      → Owns (λ _. 0) r
      → r.heap r.ptr ≡ some v
      → (k : Rcu T) × (retire_pushed c r ≡ some k) × Kept r v k
  unfolding retire_pushed
  retire_pushed-Owns c r own e =
      elim (Bool-cases (below_threshold c r || not (prev_is_clear c r))) [
        | inl keep ↦ (r, rw keep, (e, own, refl, refl, λ p n. n))
        | inr go ↦ rw go (reclaim-Owns r own e)
      ]

  -- The publication of a copy and `retire` of what it replaces keep the copy.
  pub publish-Owns :
      (c : Config) (r : Rcu T) (copied : ℕ) {v : T}
      → Owns (λ p. bit (p == copied)) r
      → r.heap copied ≡ some v
      → (k : Rcu T) × (retire c (exchange r copied).1 (exchange r copied).0 ≡ some k) × Kept r v k
  unfolding retire exchange push_retired
  publish-Owns c r copied own e =
      retire_pushed-Owns c (push_retired (exchange r copied).1 r.ptr) (λ p. ground (arith, own p)) e
