-- ===== src/Heap.antt =====
-- The C++ heap for the protected objects of type `T`: `new`, `delete`, copies and callbacks through a
-- pointer. A result of `none` is undefined behaviour: a use of, or a `delete` at, an address that
-- holds no object.
pub mod Free
use mathlib.Core.Option
use writeboost_rcu.Common.{ℕ, Option, none, some, List, [], ◌∷◌, update, ◌>>=◌}

abbrev pub Heap : Type 0 → Type 0
Heap T = ℕ → Option T

-- 1 where an object lives, 0 elsewhere.
abbrev pub allocated {ℓ} : {T : Type ℓ} → Option T → ℕ
allocated none = 0
allocated (some v) = 1

module _ {T : Type 0} where
  -- `new T(v)`, where the allocator returns `p`.
  abbrev pub create : Heap T → ℕ → T → Heap T
  create h p v = update h p (some v)

  -- `std::invoke(f, p)`: a callback that changes the object in place.
  unfoldable pub modify : Heap T → ℕ → (T → T) → Option (Heap T)
  modify h p f = Option.map (λ v. update h p (some (f v))) (h p)

  -- `*p = v`
  unfoldable pub assign : Heap T → ℕ → T → Option (Heap T)
  unfolding modify
  assign h p v = modify h p (λ _. v)

  -- `delete p`
  unfoldable pub free : Heap T → ℕ → Option (Heap T)
  free h p = Option.map (λ _. update h p none) (h p)

  -- `for (auto p : ps) { delete p; }`
  unfoldable pub free_all : Heap T → List ℕ → Option (Heap T)
  unfolding free
  free_all h [] = some h
  free_all h (p ∷ ps) = do h' ← free h p; free_all h' ps
