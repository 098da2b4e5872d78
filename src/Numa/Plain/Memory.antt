-- ===== src/Numa/Plain/Memory.antt =====
-- The memory of the NUMA class as the memory of Heap.antt, where nothing is without an object.
use mathlib.Core.Option
use mathlib.Core.Path.{fun_ext}
use writeboost_rcu.Common.{
  ℕ, ◌≡◌, Bool, true, false, refl, ap, Option, none, some, Option-cases, inl, inr, List, [], ◌∷◌,
  update, ℕ_discrete, arith, ◌∙◌, ◌>>=◌,
}
use writeboost_rcu.Heap.{Heap, modify, free, free_all}
use writeboost_rcu.Numa.{Cell, absent, raw, object, release_cell, numa_free, numa_free_all, invoke}

module _ {T : Type 0} where
  -- The object at an address, if there is one.
  abbrev pub content : Cell T → Option T
  content absent = none
  content (raw bytes) = none
  content (object v) = some v

  abbrev pub contents : (ℕ → Cell T) → Heap T
  contents h p = content (h p)

  abbrev is_raw : Cell T → Bool
  is_raw (raw bytes) = true
  is_raw _ = false

  -- Memory without an object comes from `numa_alloc_onnode` only.
  abbrev pub NoRaw : (ℕ → Cell T) → Type 0
  NoRaw h = (p : ℕ) → is_raw (h p) ≡ false

  pub contents-update :
      (h : ℕ → Cell T) (p : ℕ) (a : Cell T)
      → contents (update h p a) ≡ update (contents h) p (content a)
  contents-update h p a =
      fun_ext (λ q. elim (ℕ_discrete p q) [ yes same ↦ ground arith | no apart ↦ ground arith ])

  release-contents :
      (h : ℕ → Cell T) (p : ℕ) (a : Cell T)
      → is_raw a ≡ false
      → Option.map contents (release_cell h p a)
        ≡ Option.map (λ _. update (contents h) p none) (content a)
  unfolding release_cell
  release-contents h p absent solid = refl
  release-contents h p (raw bytes) solid = absurd (ground arith)
  release-contents h p (object v) solid = ap some (contents-update h p absent)

  pub numa_free-contents :
      (h : ℕ → Cell T) (p : ℕ) → NoRaw h → Option.map contents (numa_free h p) ≡ free (contents h) p
  unfolding numa_free free
  numa_free-contents h p solid = release-contents h p (h p) (solid p)

  pub numa_free-NoRaw :
      (h : ℕ → Cell T) (p : ℕ) {h' : ℕ → Cell T} → NoRaw h → numa_free h p ≡ some h' → NoRaw h'
  unfolding numa_free
  numa_free-NoRaw h p solid e q = ground (arith, solid q)

  pub numa_free_all-contents :
      (h : ℕ → Cell T) (ps : List ℕ)
      → NoRaw h
      → Option.map contents (numa_free_all h ps) ≡ free_all (contents h) ps
  unfolding numa_free_all free_all
  numa_free_all-contents h [] solid = refl
  numa_free_all-contents h (p ∷ ps) solid = elim (Option-cases (numa_free h p)) [
    | inl d ↦ let same = numa_free-contents h p solid in ground (arith, d, same)
    | inr (m, d) ↦
        let same = numa_free-contents h p solid in
        ground (arith, d, same, numa_free_all-contents m ps (numa_free-NoRaw h p solid d))
  ]

  pub numa_free_all-NoRaw :
      (h : ℕ → Cell T) (ps : List ℕ) {h' : ℕ → Cell T}
      → NoRaw h
      → numa_free_all h ps ≡ some h'
      → NoRaw h'
  unfolding numa_free_all
  numa_free_all-NoRaw h [] solid e = ground (arith, solid)
  numa_free_all-NoRaw h (p ∷ ps) {h'} solid e = elim (Option-cases (numa_free h p)) [
    | inl d ↦ absurd (ground arith)
    | inr (m, d) ↦ numa_free_all-NoRaw m ps {h' = h'} (numa_free-NoRaw h p solid d) (ground arith)
  ]

  -- Two chains of deletions agree if their parts do.
  pub bind-contents :
      (o : Option (ℕ → Cell T)) (o' : Option (Heap T)) (k : (ℕ → Cell T) → Option (ℕ → Cell T))
      (k' : Heap T → Option (Heap T))
      → Option.map contents o ≡ o'
      → ((h : ℕ → Cell T) → o ≡ some h → Option.map contents (k h) ≡ k' (contents h))
      → Option.map contents (o >>= k) ≡ (o' >>= k')
  bind-contents none o' k k' e f = ap (λ x. x >>= k') e
  bind-contents (some h) o' k k' e f = f h refl ∙ ap (λ x. x >>= k') e

  pub invoke-contents :
      (h : ℕ → Cell T) (p : ℕ) (f : T → T) (cell : Cell T)
      → NoRaw h
      → h p ≡ cell
      → Option.map contents (invoke h p f) ≡ modify (contents h) p f
  unfolding invoke modify
  invoke-contents h p f absent solid e = ground arith
  invoke-contents h p f (raw bytes) solid e = absurd (ground (arith, solid p))
  invoke-contents h p f (object v) solid e = ground (arith, contents-update h p (object (f v)))
