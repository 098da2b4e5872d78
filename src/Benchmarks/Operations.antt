-- ===== src/Benchmarks/Operations.antt =====
-- benchmark/bm_rw_ratio.cpp and bm_rw_ratio2.cpp: the counters tell how many operations a thread
-- made, and the threads that are joined were asked to stop.

use mathlib.Core.List.{append_assoc}
use native.Mathlib.Nat.{mod-add-mod, mul-le-mul_left}
use writeboost_rcu.Common.{
  ℕ, zero, suc, ◌+◌, ◌-◌, ◌*◌, ◌%◌, ◌^◌, ◌≤◌, ◌<◌, ◌≡◌, refl, sym, ap, ◌∙◌, Bool, true, false, some,
  List, [], ◌∷◌, ◌++◌, map, length, length-append, arith, if◌then◌else◌, ◌==◌, ltb, subst,
}
use writeboost_rcu.Rcu.{succ64}
use writeboost_rcu.Benchmarks.{
  times, turn, request_stop, stop_all, helpers, read_iterations, write_iterations, bm_read,
  bm_write, bm_explicit_ratio, num_readers,
}

times-add : {A : Type 0} (a b : ℕ) (f : A → A) (x : A) → times (a + b) f x ≡ times b f (times a f x)
unfolding times
times-add zero b f x = let e : 0 + b ≡ b = omega arith in ap (λ n. times n f x) e
times-add (suc a) b f x =
    let e : suc a + b ≡ suc (a + b) = omega arith in ap (λ n. times n f x) e ∙ times-add a b f (f x)

suc-times : (a b : ℕ) → suc a * b ≡ b + a * b
suc-times a b = omega arith

-- The counter and the object after some turns.
times-turn :
    {S : Type 0} (turns per : ℕ) (call : S → S) (ops : ℕ) (s : S)
    → ops < 2 ^ 64
    → times turns (turn per call) (ops, s)
      ≡ ((ops + turns * per) % 2 ^ 64, times (turns * per) call s)
unfolding times turn
times-turn zero per call ops s h = λ i. (count i, times (none_left i) call s)
  where
    none_left : 0 ≡ 0 * per
    none_left = omega arith

    count : ops ≡ (ops + 0 * per) % 2 ^ 64
    count = omega (arith, none_left)
times-turn (suc turns) per call ops s h =
    times-turn turns per call ((ops + per) % 2 ^ 64) (times per call s) (omega arith)
    ∙ (λ i. (count i, object i))
  where
    count : ((ops + per) % 2 ^ 64 + turns * per) % 2 ^ 64 ≡ (ops + suc turns * per) % 2 ^ 64
    count =
        mod-add-mod (ops + per) (2 ^ 64) (turns * per)
        ∙ ap (λ n. n % 2 ^ 64) (omega (arith, suc-times turns per))

    object : times (turns * per) call (times per call s) ≡ times (suc turns * per) call s
    object =
        sym (times-add per (turns * per) call s)
        ∙ ap (λ n. times n call s) (sym (suc-times turns per))

-- The same from a counter of zero, as a benchmark starts.
times-turn_zero :
    {S : Type 0} (turns per : ℕ) (call : S → S) (s : S)
    → times turns (turn per call) (0, s) ≡ ((turns * per) % 2 ^ 64, times (turns * per) call s)
times-turn_zero turns per call s =
    times-turn turns per call 0 s (omega arith)
    ∙ ap (λ n. (n % 2 ^ 64, times (turns * per) call s)) (omega arith)

request_stop-append :
    (xs : List Bool) (y : Bool) (ys : List Bool)
    → request_stop (length xs) (xs ++ y ∷ ys) ≡ some (xs ++ true ∷ ys)
unfolding request_stop
request_stop-append [] y ys = refl
request_stop-append (x ∷ xs) y ys = rw (request_stop-append xs y ys)

stop_all-append :
    (ys xs : List Bool)
    → stop_all (length ys) (length xs) (xs ++ ys) ≡ some (xs ++ map (λ _. true) ys)
unfolding stop_all
stop_all-append [] xs = refl
stop_all-append (y ∷ ys) xs =
    let len : length (xs ++ true ∷ []) ≡ length xs + 1 = length-append xs (true ∷ []) in
    let rest = stop_all-append ys (xs ++ true ∷ []) in
    ground (
      arith,
      request_stop-append xs y ys,
      rest,
      len,
      append_assoc xs (true ∷ []) ys,
      append_assoc xs (true ∷ []) (map (λ _. true) ys),
    )

-- The helper threads as they were started.
times-started :
    (n : ℕ) (ws : List Bool) → length (times n (λ ws. ws ++ false ∷ []) ws) ≡ n + length ws
unfolding times
times-started zero ws = omega arith
times-started (suc n) ws =
    omega (arith, times-started n (ws ++ false ∷ []), length-append ws (false ∷ []))

map-true : (ws : List Bool) → map (λ _. true) (map (λ _. true) ws) ≡ map (λ (_ : Bool). true) ws
map-true [] = refl
map-true (w ∷ ws) = ap (λ rest. true ∷ rest) (map-true ws)

length-map : (ws : List Bool) → length (map (λ _. true) ws) ≡ length ws
length-map [] = refl
length-map (w ∷ ws) = ap suc (length-map ws)

-- The first thread ends with every helper that it started asked to stop, and the others have none.
helpers_lem :
    (concurrency threads index : ℕ)
    → (ws : List Bool) × (helpers concurrency threads index ≡ some ws)
      × (ws ≡ map (λ _. true) ws)
      × (length ws ≡ (if index == 0 then concurrency - threads else 0))
unfolding helpers
helpers_lem concurrency threads zero =
    (map (λ _. true) started, stopped, sym (map-true started), size)
  where
    n : ℕ
    n = concurrency - threads

    started : List Bool
    started = times n (λ ws. ws ++ false ∷ []) []

    many : length started ≡ n
    many = omega (arith, times-started n [])

    stopped : stop_all n 0 started ≡ some (map (λ _. true) started)
    stopped =
        subst (λ k. stop_all k 0 started ≡ some (map (λ _. true) started)) many
          (stop_all-append started [])

    size : length (map (λ _. true) started) ≡ n
    size = length-map started ∙ many
helpers_lem concurrency threads (suc index) = ([], ground arith, refl, ground arith)

module _ {S : Type 0} (get_ptr : S → S) (update : (ℕ → ℕ) → S → S) where
  -- `bm_read` and `bm_write`, in every thread: the counter is the number of operations that the thread
  -- made, modulo 2^64, each of them was made, every thread that is joined was asked to stop, and the
  -- first thread's are as many as the benchmark's own leave room for.
  pub bm_read_lem :
      (concurrency threads index turns : ℕ) (s : S)
      → (ws : List Bool) × (ws ≡ map (λ _. true) ws)
        × (length ws ≡ (if index == 0 then concurrency - threads else 0))
        × (bm_read get_ptr update concurrency threads index turns s
            ≡ some (
              ws,
              ((turns * read_iterations) % 2 ^ 64, times (turns * read_iterations) get_ptr s),
            ))
        × (bm_write get_ptr update concurrency threads index turns s
            ≡ some (
              ws,
              (
                (turns * write_iterations) % 2 ^ 64,
                times (turns * write_iterations) (update succ64) s,
              ),
            ))
  unfolding bm_read bm_write
  bm_read_lem concurrency threads index turns s =
      let (ws, e, all, size) = helpers_lem concurrency threads index in
      (
        ws,
        all,
        size,
        rw (e, times-turn_zero turns read_iterations get_ptr s),
        rw (e, times-turn_zero turns write_iterations (update succ64) s),
      )

  times-either :
      (turns : ℕ) (s : S) (b : Bool)
      → times turns
          (λ k.
            if b then turn read_iterations get_ptr k else turn write_iterations (update succ64) k)
          (0, s)
        ≡ (if b
            then ((turns * read_iterations) % 2 ^ 64, times (turns * read_iterations) get_ptr s)
            else (
              (turns * write_iterations) % 2 ^ 64,
              times (turns * write_iterations) (update succ64) s,
            ))
  times-either turns s true = times-turn_zero turns read_iterations get_ptr s
  times-either turns s false = times-turn_zero turns write_iterations (update succ64) s

  -- `bm_explicit_ratio` in the thread `index`: below the number of readers it only reads, and else it
  -- only updates; its counter is the number of its operations, modulo 2^64. For a ratio of at most
  -- 100 percent the readers are no more than the threads.
  pub bm_explicit_ratio_lem :
      (threads read_ratio index turns : ℕ) (s : S)
      → read_ratio ≤ 100
      → (num_readers threads read_ratio ≤ threads)
        × (bm_explicit_ratio get_ptr update threads read_ratio index turns s ≡ (
            if ltb index (num_readers threads read_ratio)
            then ((turns * read_iterations) % 2 ^ 64, times (turns * read_iterations) get_ptr s)
            else (
              (turns * write_iterations) % 2 ^ 64,
              times (turns * write_iterations) (update succ64) s,
            )))
  unfolding bm_explicit_ratio
  bm_explicit_ratio_lem threads read_ratio index turns s h = (
    omega (arith, mul-le-mul_left threads h),
    times-either turns s (ltb index (num_readers threads read_ratio)),
  )
