-- ===== src/Benchmarks.antt =====
-- benchmark/bm_rw_ratio.cpp, bm_rw_ratio2.cpp and bm_sizeof_data.cpp: what one thread of a benchmark
-- does. `turns` is how often `for (auto _ : state)` runs. A benchmark works on any protected object:
-- the state `S` with what one `get_ptr` and one `update` of this thread do to it. The busy waits
-- change nothing and are left out, and thread counts stay far below the bounds of `int`.
pub mod Operations
pub mod Mask
mod Tests
use Prim.Native.Nat.{bit_and}
use mathlib.Core.Option
use writeboost_rcu.Common.{
  ℕ, zero, suc, ◌+◌, ◌-◌, ◌*◌, ◌/◌, ◌%◌, ◌^◌, Bool, true, false, Option, none, some, List, [], ◌∷◌,
  ◌++◌, if◌then◌else◌, ◌==◌, ltb, ◌>>=◌,
}
use writeboost_rcu.Rcu.{succ64}

-- `for (int i = 0; i < n; ++i)` around one call.
unfoldable pub times {ℓ} : {A : Type ℓ} → ℕ → (A → A) → A → A
times zero f a = a
times (suc n) f a = times n f (f a)

abbrev pub read_iterations : ℕ
read_iterations = 1000000

abbrev pub write_iterations : ℕ
write_iterations = 100

-- `writers[i].request_stop()`, on the flags of the threads in the vector: undefined out of range.
unfoldable pub request_stop : ℕ → List Bool → Option (List Bool)
request_stop i [] = none
request_stop zero (w ∷ ws) = some (true ∷ ws)
request_stop (suc i) (w ∷ ws) = Option.map (λ rest. w ∷ rest) (request_stop i ws)

-- The loop that asks the threads from `i` on to stop.
unfoldable pub stop_all : ℕ → ℕ → List Bool → Option (List Bool)
unfolding request_stop
stop_all zero i ws = some ws
stop_all (suc left) i ws = do ws' ← request_stop i ws; stop_all left (i + 1) ws'

-- The threads that are started beside the benchmark's own, by its first thread, and then stopped.
unfoldable pub helpers : ℕ → ℕ → ℕ → Option (List Bool)
unfolding times stop_all
helpers concurrency threads index =
    if index == 0
    then stop_all (concurrency - threads) 0
        (times (concurrency - threads) (λ ws. ws ++ false ∷ []) [])
    else some []

-- One turn: the calls, and then `ops += per`.
unfoldable pub turn : {S : Type 0} → ℕ → (S → S) → ℕ × S → ℕ × S
unfolding times
turn per call (ops, s) = ((ops + per) % 2 ^ 64, times per call s)

abbrev pub num_readers : ℕ → ℕ → ℕ
num_readers threads read_ratio = threads * read_ratio / 100

module _ {S : Type 0} (get_ptr : S → S) (update : (ℕ → ℕ) → S → S) where
  -- The result is the helpers as they are joined, the counter, and the object.
  unfoldable pub bm_read : ℕ → ℕ → ℕ → ℕ → S → Option (List Bool × (ℕ × S))
  unfolding helpers turn
  bm_read concurrency threads index turns s =
      Option.map (λ ws. (ws, times turns (turn read_iterations get_ptr) (0, s)))
        (helpers concurrency threads index)

  unfoldable pub bm_write : ℕ → ℕ → ℕ → ℕ → S → Option (List Bool × (ℕ × S))
  unfolding helpers turn
  bm_write concurrency threads index turns s =
      Option.map (λ ws. (ws, times turns (turn write_iterations (update succ64)) (0, s)))
        (helpers concurrency threads index)

  -- One turn of a thread, which reads or writes by its number.
  ratio_turn : ℕ → ℕ → ℕ → ℕ × S → ℕ × S
  unfolding turn
  ratio_turn threads read_ratio index k =
      if ltb index (num_readers threads read_ratio)
      then turn read_iterations get_ptr k
      else turn write_iterations (update succ64) k

  unfoldable pub bm_explicit_ratio : ℕ → ℕ → ℕ → ℕ → S → ℕ × S
  unfolding ratio_turn
  bm_explicit_ratio threads read_ratio index turns s =
      times turns (ratio_turn threads read_ratio index) (0, s)

-- `++(ptr->data[index])`: undefined out of range.
unfoldable pub bump : ℕ → List ℕ → Option (List ℕ)
bump i [] = none
bump zero (x ∷ xs) = some (succ64 x ∷ xs)
bump (suc i) (x ∷ xs) = Option.map (λ rest. x ∷ rest) (bump i xs)

-- `rand` is the answers of the C library's `rand()`, by the number of the call.
module _ (rand : ℕ → ℕ) where
  -- The calls of `update`, from the one numbered `n` on.
  unfoldable pub write_loop : ℕ → ℕ → ℕ → List ℕ → Option (List ℕ)
  unfolding bump
  write_loop mask zero n data' = some data'
  write_loop mask (suc left) n data' = do
    next ← bump (bit_and (rand n) mask) data'
    write_loop mask left (n + 1) next

  unfoldable pub bm_turns : ℕ → ℕ → ℕ → ℕ → List ℕ → Option (ℕ × List ℕ)
  unfolding write_loop
  bm_turns mask zero n write_ops data' = some (write_ops, data')
  bm_turns mask (suc turns) n write_ops data' = do
    next ← write_loop mask write_iterations n data'
    bm_turns mask turns (n + write_iterations) ((write_ops + write_iterations) % 2 ^ 64) next

  -- `sz - 1` is computed in 64 bits; the counter is `write_ops * state.threads()`.
  unfoldable pub bm_func : ℕ → ℕ → ℕ → List ℕ → Option (ℕ × List ℕ)
  unfolding bm_turns
  bm_func threads sz turns data' =
      Option.map (λ (write_ops, data''). (write_ops * threads % 2 ^ 64, data''))
        (bm_turns ((sz + (2 ^ 64 - 1)) % 2 ^ 64) turns 0 0 data')
