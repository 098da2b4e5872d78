-- ===== src/Heap/Free.antt =====
-- What a loop of deletions does to the heap, and when it has no undefined behaviour.

use writeboost_rcu.Common.{
  ℕ, ◌+◌, ◌≤◌, ◌<◌, ◌≡◌, refl, Option, none, some, Option-cases, List, [], ◌∷◌, count, update, inl,
  inr, arith,
}
use writeboost_rcu.Heap.{Heap, allocated, free, free_all}

module _ {T : Type 0} where
  pub allocated-some : (o : Option T) → 0 < allocated o → (v : T) × (o ≡ some v)
  allocated-some none h = absurd (omega arith)
  allocated-some (some v) h = (v, refl)

  pub allocated-zero : (o : Option T) → allocated o ≡ 0 → o ≡ none
  allocated-zero none h = refl
  allocated-zero (some v) h = absurd (omega arith)

  pub free-some : (h : Heap T) (p : ℕ) {v : T} → h p ≡ some v → free h p ≡ some (update h p none)
  unfolding free
  free-some h p e = rw e

  -- A loop of deletions that succeeds takes each address off as often as the list names it.
  pub free_all-count :
      (h : Heap T) (ps : List ℕ) (p : ℕ) {h' : Heap T}
      → free_all h ps ≡ some h'
      → allocated (h' p) + count p ps ≡ allocated (h p)
  unfolding free_all
  free_all-count h [] p e = ground arith
  free_all-count h (q ∷ ps) p {h'} e = elim (Option-cases (h q)) [
    | inl d ↦ absurd (ground arith)
    | inr (v, d) ↦ ground (arith, free_all-count (update h q none) ps p {h' = h'})
  ]

  -- It leaves the other addresses as they are.
  pub free_all-keeps :
      (h : Heap T) (ps : List ℕ) (p : ℕ) {h' : Heap T}
      → free_all h ps ≡ some h'
      → count p ps ≡ 0
      → h' p ≡ h p
  unfolding free_all
  free_all-keeps h [] p e z = ground arith
  free_all-keeps h (q ∷ ps) p {h'} e z = elim (Option-cases (h q)) [
    | inl d ↦ absurd (ground arith)
    | inr (v, d) ↦ ground (arith, free_all-keeps (update h q none) ps p {h' = h'})
  ]

  -- It succeeds if no address is named more often than there is an object there.
  pub free_all_total :
      (h : Heap T) (ps : List ℕ)
      → ((p : ℕ) → count p ps ≤ allocated (h p))
      → (h' : Heap T) × (free_all h ps ≡ some h')
  unfolding free_all free
  free_all_total h [] bound = (h, refl)
  free_all_total h (q ∷ ps) bound =
      let (v, d) = allocated-some (h q) (ground (arith, bound q)) in
      rw d (free_all_total (update h q none) ps (λ p. ground (arith, bound p)))

  -- It makes no object.
  pub free_all-none :
      (h : Heap T) (ps : List ℕ) (p : ℕ) {h' : Heap T}
      → free_all h ps ≡ some h'
      → h p ≡ none
      → h' p ≡ none
  free_all-none h ps p {h'} e n =
      allocated-zero (h' p) (ground (arith, free_all-count h ps p {h' = h'} e))
