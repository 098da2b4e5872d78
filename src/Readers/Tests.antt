-- ===== src/Readers/Tests.antt =====
-- The bytes of three readers.
use writeboost_rcu.Common.{arith, ℕ, ◌%◌, ◌/◌, ◌≡◌, refl, ◌≢◌, ◌<◌, ◌↔◌, true}
use writeboost_rcu.Readers.{reading_of, increment, decrement, epoch_is_clear}
use writeboost_rcu.Readers.Sections.{section_roundtrip}
use writeboost_rcu.Readers.Clear.{epoch_is_clear_iff}

epoch_is_clear_iff_example :
    (epoch_is_clear 3 (increment (λ _. 0) 1 1) 0 ≡ true)
    ↔ ((k : ℕ) → k < 3 → increment (λ _. 0) 1 1 k ≢ reading_of 0)
epoch_is_clear_iff_example = epoch_is_clear_iff 3 (increment (λ _. 0) 1 1) 0

section_roundtrip_example :
    (increment (λ _. 0) 2 1 2 % 2 ≡ 1)
    × (increment (λ _. 0) 2 1 2 / 2 ≡ 1)
    × ((j : ℕ) → j ≢ 2 → increment (λ _. 0) 2 1 j ≡ 0)
    × (decrement (increment (λ _. 0) 2 1) 2 ≡ (λ _. 0))
    × (decrement (increment (increment (λ _. 0) 2 1) 2 0) 2 ≡ (λ _. 0))
section_roundtrip_example = section_roundtrip (λ _. 0) 2 1 0 refl (omega arith)
