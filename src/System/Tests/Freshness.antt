-- ===== src/System/Tests/Freshness.antt =====
-- A reader that the updater overtakes between the call of `get_ptr` and the load of the pointer.
use writeboost_rcu.Common.{ℕ, ◌+◌, ◌≡◌, refl, some, [], ◌∷◌, arith}
use writeboost_rcu.Threads.{done, reading}
use writeboost_rcu.System.{System, read, call, write, step}
use writeboost_rcu.System.Schedule.{Run, run}
use writeboost_rcu.System.Freshness.{During, here, next}
use writeboost_rcu.System.Freshness.Reads.{Seen, get_ptr_fresh}
use writeboost_rcu.System.Tests.{small}

-- The updater 0 publishes next.
abbrev about_to_publish : Run {T = ℕ} small 10 0
about_to_publish =
    run small 10 0 (call 0 (λ x. x + 42) ∷ write 0 11 ∷ write 0 99 ∷ write 0 99 ∷ write 0 99 ∷ [])

-- Thread 1 takes a step, then the updater publishes, then thread 1 takes two more.
abbrev overtaken : Run {T = ℕ} small 10 0
overtaken = run small 10 0 (
    call 0 (λ x. x + 42)
    ∷ write 0 11
    ∷ write 0 99
    ∷ write 0 99
    ∷ write 0 99
    ∷ read 1
    ∷ write 0 99
    ∷ read 1
    ∷ read 1
    ∷ [])

abbrev during :
    During small 1 about_to_publish.history about_to_publish.last 3 overtaken.history overtaken.last
unfolding run step
during =
    next
      (next (next (next here (read 1) tt refl refl refl) (write 0 99) refl refl refl refl) (read 1)
        tt refl refl refl)
      (read 1) tt refl refl refl

overtaken_state : (overtaken.reads 1 ≡ reading 11) × (overtaken.heap 11 ≡ some 42)
unfolding run
overtaken_state = (refl, refl)

get_ptr_fresh_example :
    ((w : System ℕ) → (w' : System ℕ) × (step small w (read 1) ≡ done w'))
    × ((p : ℕ) × (overtaken.reads 1 ≡ reading p)
        × Seen 0 about_to_publish.history overtaken.history overtaken.last p)
unfolding run
get_ptr_fresh_example = get_ptr_fresh about_to_publish.reach (omega arith) refl during (omega arith)
