-- ===== src/Numa/Plain/Quiet.antt =====
-- What the operations of the NUMA class keep on a machine without NUMA.
use mathlib.Core.Option
use writeboost_rcu.Common.{
  ℕ, ◌≡◌, refl, sym, subst, ◌∙◌, false, Option, none, some, Option-cases, inl, inr, ◌==◌, bit,
  arith,
}
use writeboost_rcu.Rcu.{Config}
use writeboost_rcu.Rcu.Places.{Owns, Kept, Copied, get_copy-Owns, publish-Owns}
use writeboost_rcu.Numa.{NumaRcu, numa_free_all, get_copy, retire, publish}
use writeboost_rcu.Numa.Plain.Memory.{contents, NoRaw, numa_free_all-NoRaw}
use writeboost_rcu.Numa.Plain.{plain, get_copy-plain, publish-plain, publish-retire}

-- A mapped result comes from a result.
pub map-some :
    {A B : Type 0} (g : A → B) (o : Option A) {y : B}
    → Option.map g o ≡ some y
    → (x : A) × (o ≡ some x) × (g x ≡ y)
map-some g none e = absurd (ground arith)
map-some g (some x) e = (x, refl, ground arith)

module _ {T : Type 0} where
  -- Without NUMA, and with no memory that holds no object.
  abbrev pub Quiet : NumaRcu T → Type 0
  Quiet r = (r.is_numa_available ≡ false) × (r.max_node ≡ 0) × NoRaw r.heap

  pub get_copy-Quiet :
      (r : NumaRcu T) (node fresh : ℕ) {copied : ℕ} {k : NumaRcu T}
      → Quiet r
      → get_copy r node fresh ≡ some (copied, k)
      → Quiet k
  unfolding get_copy
  get_copy-Quiet r node fresh (numa, one, solid) q =
      (ground arith, ground arith, ground (arith, solid))

  retire-Quiet :
      (c : Config) (r : NumaRcu T) (p node : ℕ) {k : NumaRcu T}
      → Quiet r
      → retire c r p node ≡ some k
      → Quiet k
  unfolding retire
  retire-Quiet c r p node {k} (numa, one, solid) e =
      elim (Option-cases (numa_free_all r.heap r.finished)) [
        | inl d ↦ (ground arith, ground arith, ground (arith, solid))
        | inr (h, d) ↦
            let solid' = numa_free_all-NoRaw r.heap r.finished {h' = h} solid d in
            (ground arith, ground arith, ground (arith, solid, solid'))
      ]

  publish-Quiet :
      (c : Config) (copied : ℕ) (r : NumaRcu T) {k : NumaRcu T}
      → Quiet r
      → publish c copied r ≡ some k
      → Quiet k
  publish-Quiet c copied r {k} quiet e =
      retire-Quiet c (record r { ptr = copied }) r.ptr 0 {k = k} quiet
        (sym (publish-retire c copied r quiet.0) ∙ e)

  -- `get_copy` makes a copy that only the caller knows.
  pub copy_lem :
      (r : NumaRcu T) (node fresh : ℕ) {v : T}
      → Quiet r
      → Owns (λ _. 0) (plain r)
      → contents r.heap fresh ≡ none
      → contents r.heap r.ptr ≡ some v
      → (copied : ℕ) × (k : NumaRcu T) × (get_copy r node fresh ≡ some (copied, k))
        × Quiet k
        × Copied (plain r) fresh copied v (plain k)
  copy_lem r node fresh {v} quiet own new e =
      let (copied, k', d, ok) = get_copy-Owns (plain r) fresh r.finished refl own new e in
      let ((copied', k), got, same) =
        map-some (λ (p, k). (p, plain k)) (get_copy r node fresh)
          (get_copy-plain r node fresh (r.heap r.ptr) r.finished quiet.0 quiet.2 refl refl ∙ d) in
      (
        copied',
        k,
        got,
        get_copy-Quiet r node fresh quiet got,
        subst (λ z. Copied (plain r) fresh z.0 v z.1) (sym same) ok,
      )

  -- A publication keeps the copy.
  pub publish_lem :
      (c : Config) (copied : ℕ) (r : NumaRcu T) {v : T}
      → Quiet r
      → Owns (λ p. bit (p == copied)) (plain r)
      → contents r.heap copied ≡ some v
      → (k : NumaRcu T) × (publish c copied r ≡ some k) × Quiet k × Kept (plain r) v (plain k)
  publish_lem c copied r {v} quiet own e =
      let (k', d, ok) = publish-Owns c (plain r) copied own e in
      let (k, got, same) =
        map-some plain (publish c copied r)
          (publish-plain c copied r quiet.0 quiet.1 quiet.2 ∙ d) in
      (k, got, publish-Quiet c copied r {k = k} quiet got, subst (Kept (plain r) v) (sym same) ok)
