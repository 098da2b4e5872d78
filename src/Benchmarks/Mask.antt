-- ===== src/Benchmarks/Mask.antt =====
-- benchmark/bm_sizeof_data.cpp: the index that `rand() & mask` gives.
use native.Mathlib.Nat.{add-mul, add-mul-mod_self_left, mod-add-div, mul_assoc}
use Prim.Native.Nat.{bit_and, bit_and-bitwise, digits, min}
use mathlib.Core.Option
use writeboost_rcu.Common.{
  ℕ, zero, suc, ◌+◌, ◌-◌, ◌*◌, ◌/◌, ◌%◌, ◌^◌, ◌≤◌, ◌<◌, ◌≡◌, refl, ap, sym, ◌∙◌, some, List, [],
  ◌∷◌, length, arith,
}
use writeboost_rcu.Rcu.{succ64}
use writeboost_rcu.Benchmarks.{bump, write_loop, bm_turns, bm_func, write_iterations}

-- A factor may be reduced before the product is.
mod-mul_left : (a t m : ℕ) → a % m * t % m ≡ (a * t) % m
mod-mul_left a t m =
    sym (add-mul-mod_self_left (a % m * t) m (a / m * t))
    ∙ ap (λ k. k % m)
        (ap (λ k. a % m * t + k) (sym (mul_assoc m (a / m) t))
          ∙ sym (add-mul (a % m) (m * (a / m)) t)
          ∙ ap (λ k. k * t) (mod-add-div a m))

-- The digits of a conjunction are at most those of its right side.
digits-le : (n a b : ℕ) → digits (λ b. zero) min n a b ≤ b
digits-le zero a b = omega arith
digits-le (suc n) zero b = omega arith
digits-le (suc n) (suc a) b = omega (arith, digits-le n (suc a / 2) (b / 2))

bit_and-le : (a b : ℕ) → bit_and a b ≤ b
bit_and-le a b = omega (arith, bit_and-bitwise a b, digits-le a a b)

-- An index in range can be used, and the array keeps its size.
bump_total :
    (i : ℕ) (xs : List ℕ)
    → i < length xs
    → (ys : List ℕ) × (bump i xs ≡ some ys) × (length ys ≡ length xs)
unfolding bump
bump_total i [] h = absurd (omega arith)
bump_total zero (x ∷ xs) h = (succ64 x ∷ xs, refl, refl)
bump_total (suc i) (x ∷ xs) h =
    let (ys, e, size) = bump_total i xs (omega arith) in (x ∷ ys, rw e, ap suc size)

module _ (rand : ℕ → ℕ) where
  write_loop_total :
      (mask left n : ℕ) (xs : List ℕ)
      → mask < length xs
      → (ys : List ℕ) × (write_loop rand mask left n xs ≡ some ys) × (length ys ≡ length xs)
  unfolding write_loop
  write_loop_total mask zero n xs h = (xs, refl, refl)
  write_loop_total mask (suc left) n xs h =
      let (next, e, size) =
        bump_total (bit_and (rand n) mask) xs (omega (arith, bit_and-le (rand n) mask)) in
      let (ys, e', size') = write_loop_total mask left (n + 1) next (omega arith) in
      (ys, rw (e, e'), size' ∙ size)

  bm_turns_total :
      (mask turns n ops : ℕ) (xs : List ℕ)
      → mask < length xs
      → ops < 2 ^ 64
      → (ys : List ℕ) × (bm_turns rand mask turns n ops xs
          ≡ some ((ops + turns * write_iterations) % 2 ^ 64, ys))
        × (length ys ≡ length xs)
  unfolding bm_turns
  bm_turns_total mask zero n ops xs h small = (xs, ap (λ k. some (k, xs)) (omega arith), refl)
  bm_turns_total mask (suc turns) n ops xs h small =
      let (next, e, size) = write_loop_total mask write_iterations n xs h in
      let (ys, e', size') =
        bm_turns_total mask turns (n + write_iterations) ((ops + write_iterations) % 2 ^ 64) next
          (omega arith) (omega arith) in
      let count : ((ops + write_iterations) % 2 ^ 64 + turns * write_iterations) % 2 ^ 64
          ≡ (ops + suc turns * write_iterations) % 2 ^ 64 =
        omega arith in
      (ys, rw (e, e', count), size' ∙ size)

  -- Whatever `rand` answers: on an array of at least one and fewer than 2^64 elements no index is out
  -- of range, the array keeps its size, and the counter is the number of updates times the number of
  -- threads, modulo 2^64.
  pub bm_func_total :
      (threads sz turns : ℕ) (xs : List ℕ)
      → 0 < sz
      → sz < 2 ^ 64
      → length xs ≡ sz
      → (ys : List ℕ) × (bm_func rand threads sz turns xs
          ≡ some ((turns * write_iterations * threads) % 2 ^ 64, ys))
        × (length ys ≡ sz)
  unfolding bm_func
  bm_func_total threads sz turns xs pos small size =
      let (ys, e, same) =
        bm_turns_total ((sz + (2 ^ 64 - 1)) % 2 ^ 64) turns 0 0 xs (omega arith) (omega arith) in
      let count : (0 + turns * write_iterations) % 2 ^ 64 * threads % 2 ^ 64
          ≡ (turns * write_iterations * threads) % 2 ^ 64 =
        mod-mul_left (0 + turns * write_iterations) threads (2 ^ 64)
        ∙ ap (λ k. k * threads % 2 ^ 64) (omega arith) in
      (
        ys,
        ap (Option.map (λ (write_ops, data''). (write_ops * threads % 2 ^ 64, data''))) e
            ∙ ap (λ k. some (k, ys)) count,
        same ∙ size,
      )
