-- ===== src/Readers.antt =====
-- include/wbrcu/detail/ThreadCachedReaders.hpp: one byte for each reader thread, with the epoch that
-- the thread is reading in.
pub mod Clear
pub mod Sections
mod Tests
use writeboost_rcu.Common.{ℕ, zero, suc, ◌+◌, ◌*◌, ◌%◌, ◌^◌, Bool, false, not, ◌||◌, ◌==◌, update}

-- `EpochReading` of every thread, by thread number. A thread that has never read has a byte of 0.
abbrev pub Counters : Type 0
Counters = ℕ → ℕ

-- `static_cast<uint8_t>((epoch << 1) + 1)`
abbrev pub reading_of : ℕ → ℕ
reading_of epoch = (epoch * 2 + 1) % 2 ^ 8

unfoldable pub increment : Counters → ℕ → ℕ → Counters
increment m thread epoch = update m thread (reading_of epoch)

unfoldable pub decrement : Counters → ℕ → Counters
decrement m thread = update m thread 0

-- `std::any_of` over the bytes of the first `n` threads.
unfoldable pub any_reading : ℕ → Counters → ℕ → Bool
any_reading zero m reading = false
any_reading (suc n) m reading = any_reading n m reading || m n == reading

unfoldable pub epoch_is_clear : ℕ → Counters → ℕ → Bool
unfolding any_reading
epoch_is_clear n m epoch = not (any_reading n m (reading_of epoch))
