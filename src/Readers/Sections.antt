-- ===== src/Readers/Sections.antt =====
-- `increment` and `decrement` in pairs, as a thread that enters and leaves makes them.
use mathlib.Core.Path.{fun_ext}
use writeboost_rcu.Common.{ℕ, ◌<◌, ◌%◌, ◌/◌, ◌≢◌, ◌≡◌, ℕ_discrete, arith}
use writeboost_rcu.Readers.{Counters, increment, decrement}

-- After `increment` with an epoch of 0 or 1 the byte of the thread tells the epoch and that it reads:
-- bit 0 is set, bit 1 is the epoch and the other bits are clear, and no other byte has changed.
-- `decrement` gives a thread that read nothing its byte back; and of two such pairs, one inside the
-- other, the inner `decrement` ends both.
pub section_roundtrip :
    (m : Counters) (thread outer inner : ℕ)
    → m thread ≡ 0
    → outer < 2
    → (increment m thread outer thread % 2 ≡ 1)
      × (increment m thread outer thread / 2 ≡ outer)
      × ((j : ℕ) → j ≢ thread → increment m thread outer j ≡ m j)
      × (decrement (increment m thread outer) thread ≡ m)
      × (decrement (increment (increment m thread outer) thread inner) thread ≡ m)
unfolding increment decrement
section_roundtrip m thread outer inner idle small = (
  ground arith,
  ground arith,
  λ j apart. ground arith,
  fun_ext (λ j. elim (ℕ_discrete thread j) [ yes same ↦ ground arith | no apart ↦ ground arith ]),
  fun_ext (λ j. elim (ℕ_discrete thread j) [ yes same ↦ ground arith | no apart ↦ ground arith ]),
)
