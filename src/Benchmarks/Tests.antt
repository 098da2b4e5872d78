-- ===== src/Benchmarks/Tests.antt =====
-- Small benchmarks: two threads on a machine of four, and an array of four elements.
use writeboost_rcu.Common.{
  ℕ, ◌+◌, ◌*◌, ◌%◌, ◌^◌, ◌-◌, ◌≤◌, ◌≡◌, refl, Bool, true, some, List, [], ◌∷◌, map, length, arith,
  if◌then◌else◌, ◌==◌, ltb,
}
use writeboost_rcu.Rcu.{succ64}
use writeboost_rcu.Benchmarks.{
  times, read_iterations, write_iterations, bm_read, bm_write, bm_explicit_ratio, num_readers,
  bm_func, helpers, write_loop,
}
use writeboost_rcu.Benchmarks.Operations.{bm_read_lem, bm_explicit_ratio_lem}
use writeboost_rcu.Benchmarks.Mask.{bm_func_total}

-- Reads leave the object as it is.
abbrev look : ℕ → ℕ
look v = v

abbrev change : (ℕ → ℕ) → ℕ → ℕ
change f v = f v

-- Two helpers are started and stopped.
two_helpers : helpers 4 2 0 ≡ some (true ∷ true ∷ [])
unfolding helpers
two_helpers = refl

-- Of ten threads at 80 percent, the last two write.
eight_readers : num_readers 10 80 ≡ 8
eight_readers = refl

-- With fewer than ten threads, 10 percent of readers is none.
no_readers : num_readers 8 10 ≡ 0
no_readers = refl

abbrev four_zeros : List ℕ
four_zeros = 0 ∷ 0 ∷ 0 ∷ 0 ∷ []

three_updates : write_loop (λ n. n + 5) 3 3 0 four_zeros ≡ some (0 ∷ 1 ∷ 1 ∷ 1 ∷ [])
unfolding write_loop
three_updates = refl

bm_read_lem_example :
    (ws : List Bool) × (ws ≡ map (λ _. true) ws)
    × (length ws ≡ (if 0 == 0 then 4 - 2 else 0))
    × (bm_read look change 4 2 0 3 7
        ≡ some (ws, ((3 * read_iterations) % 2 ^ 64, times (3 * read_iterations) look 7)))
    × (bm_write look change 4 2 0 3 7
        ≡ some
            (ws, ((3 * write_iterations) % 2 ^ 64, times (3 * write_iterations) (change succ64) 7)))
bm_read_lem_example = bm_read_lem look change 4 2 0 3 7

bm_explicit_ratio_lem_example :
    (num_readers 10 80 ≤ 10)
    × (bm_explicit_ratio look change 10 80 9 3 7 ≡ (
        if ltb 9 (num_readers 10 80)
        then ((3 * read_iterations) % 2 ^ 64, times (3 * read_iterations) look 7)
        else ((3 * write_iterations) % 2 ^ 64, times (3 * write_iterations) (change succ64) 7)))
bm_explicit_ratio_lem_example = bm_explicit_ratio_lem look change 10 80 9 3 7 (omega arith)

bm_func_total_example :
    (ys : List ℕ) × (bm_func (λ n. n + 5) 3 4 2 four_zeros
      ≡ some ((2 * write_iterations * 3) % 2 ^ 64, ys))
    × (length ys ≡ 4)
bm_func_total_example = bm_func_total (λ n. n + 5) 3 4 2 four_zeros (omega arith) (omega arith) refl
