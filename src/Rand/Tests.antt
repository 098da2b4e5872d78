-- ===== src/Rand/Tests.antt =====
-- `wbrcu::rand()` at two call sites.
use writeboost_rcu.Common.{ℕ, ◌≡◌, refl, [], ◌∷◌, arith}
use writeboost_rcu.Rand.{SourceLocation, rand}
use writeboost_rcu.Rand.Distinct.{rand_distinct, rand-column_wraps}

abbrev site : ℕ → ℕ → SourceLocation
site line column = record { line = line; column = column; file_name = 97 ∷ 46 ∷ 99 ∷ [] }

rand_distinct_example : (◌≡◌ {A = ℕ} 4 4) × (◌≡◌ {A = ℕ} 5 5)
rand_distinct_example =
    rand_distinct (site 4 5) (site 4 5) refl (omega arith) (omega arith) (omega arith) (omega arith)
      refl

rand-column_wraps_example : rand (site 4 65541) ≡ rand (site 4 5)
rand-column_wraps_example = rand-column_wraps (site 4 5)
