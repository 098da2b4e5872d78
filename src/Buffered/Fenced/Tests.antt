-- ===== src/Buffered/Fenced/Tests.antt =====
-- A reader whose store waits while the updater works, and is written before the reader's load.
use writeboost_rcu.Common.{
  ℕ, ◌+◌, ◌<◌, ◌^◌, ◌≡◌, refl, Option, none, some, List, [], ◌∷◌, length, arith,
}
use writeboost_rcu.Threads.{Outcome, done}
use writeboost_rcu.System.{History, Reach}
use writeboost_rcu.Rcu.{Config}
use writeboost_rcu.Buffered.{
  BufferedPc, stored, reading, BufferedSystem, BufferedAction, read, drain, call, write,
  buffered_step, buffered_start, Allocates,
}
use writeboost_rcu.Buffered.Fenced.{Written, InOrder, asked, FencedReach, begin, later}
use writeboost_rcu.Buffered.Fenced.Simulation.{settled}
use writeboost_rcu.Buffered.Fenced.Runs.{fenced_run, fenced_reader_keeps}

abbrev two_threads : Config
two_threads = record { hardware_concurrency = 1; flushing_threshold = 20; threads = 2 }

-- A state with the way there.
record FencedRun : Type 0 where
  calls : List (ℕ → ℕ)
  last : BufferedSystem ℕ
  open last use *
  reach : FencedReach two_threads 10 7 calls last

advance :
    (r : FencedRun) (a : BufferedAction ℕ)
    → Allocates r.last a
    → InOrder r.last a
    → (o : Outcome (BufferedSystem ℕ)) → buffered_step two_threads r.last a ≡ o
    → FencedRun
advance r a ok order (done s) e = record {
  calls = asked a r.calls;
  last = s;
  reach = later r.reach a ok order e refl;
}
advance r a ok order _ e = r

written : (pc : BufferedPc) → Option (Written pc)
written (stored e) = none
written _ = some tt

read_fenced : (r : FencedRun) (i : ℕ) → Option (Written (r.last.reads i)) → FencedRun
unfolding advance buffered_step
read_fenced r i none = r
read_fenced r i (some order) =
    advance r (read i) tt order (buffered_step two_threads r.last (read i)) refl

write_free : (r : FencedRun) (i fresh : ℕ) (o : Option ℕ) → r.last.heap fresh ≡ o → FencedRun
unfolding advance buffered_step
write_free r i fresh none e =
    advance r (write i fresh) e tt (buffered_step two_threads r.last (write i fresh)) refl
write_free r i fresh (some u) e = r

run_fenced : FencedRun → List (BufferedAction ℕ) → FencedRun
unfolding advance written read_fenced write_free buffered_step
run_fenced r [] = r
run_fenced r (read i ∷ rest) = run_fenced (read_fenced r i (written (r.last.reads i))) rest
run_fenced r (drain i ∷ rest) =
    run_fenced (advance r (drain i) tt tt (buffered_step two_threads r.last (drain i)) refl) rest
run_fenced r (call i f ∷ rest) =
    run_fenced (advance r (call i f) tt tt (buffered_step two_threads r.last (call i f)) refl) rest
run_fenced r (write i fresh ∷ rest) =
    run_fenced (write_free r i fresh (r.last.heap fresh) refl) rest

-- Thread 1 is at its store when thread 0 copies; it loads the pointer once the store is done.
abbrev overlapped : FencedRun
overlapped =
    run_fenced (record { calls = []; last = buffered_start 10 7; reach = begin })
      (read 1
        ∷ read 1
        ∷ call 0 (λ x. x + 1)
        ∷ write 0 11
        ∷ read 1
        ∷ drain 1
        ∷ write 0 99
        ∷ read 1
        ∷ write 0 99
        ∷ write 0 99
        ∷ [])

overlapped_state :
    (overlapped.last.reads 1 ≡ reading 10)
    × (overlapped.last.heap 10 ≡ some 7)
    × (overlapped.last.heap 11 ≡ some 8)
    × (length overlapped.calls ≡ 1)
unfolding run_fenced buffered_start
overlapped_state = (refl, refl, refl, refl)

-- The updater publishes.
abbrev published : FencedRun
published = run_fenced overlapped (write 0 99 ∷ [])

published_state : (published.last.ptr ≡ 11) × (published.last.reads 1 ≡ reading 10)
unfolding run_fenced buffered_start
published_state = (refl, refl)

fenced_run_example :
    (h : History ℕ) × Reach two_threads 10 7 h (settled overlapped.last)
    × (h.calls ≡ overlapped.calls)
fenced_run_example = fenced_run overlapped.reach

few : length overlapped.calls < 2 ^ 64
few = rw overlapped_state.3 (omega arith)

fenced_reader_keeps_example :
    (u : ℕ) × (overlapped.last.heap 10 ≡ some u) × (published.last.heap 10 ≡ some u)
unfolding run_fenced buffered_start
fenced_reader_keeps_example =
    fenced_reader_keeps {s' = published.last} 1 10 overlapped.reach few refl (write 0 99) refl tt
      refl
