-- ===== src/Rand.antt =====
-- include/wbrcu/rcu_protected.hpp: the compile-time number `wbrcu::rand()` that tells the thread-local
-- tags of two `rcu_protected` objects apart.
pub mod Xor
pub mod Distinct
mod Tests
use Prim.Native.Nat.{bit_xor}
use writeboost_rcu.Common.{ℕ, ◌+◌, ◌*◌, ◌%◌, ◌^◌, List, [], ◌∷◌}

-- `std::source_location`: `line()` and `column()` are `uint_least32_t`, and `file_name` is the bytes
-- up to the terminating 0.
pub record SourceLocation : Type 0 where
  pub line : ℕ
  pub column : ℕ
  pub file_name : List ℕ

-- The loop `hash = hash * 31 + c` over the file name, in 64 bits.
pub hash_from : ℕ → List ℕ → ℕ
hash_from hash [] = hash
hash_from hash (c ∷ cs) = hash_from ((hash * 31 + c) % 2 ^ 64) cs

-- `loc.column() << 16` is a shift of 32 bits.
pub shifted_column : ℕ → ℕ
shifted_column column = column * 2 ^ 16 % 2 ^ 32

pub rand : SourceLocation → ℕ
unfolding hash_from shifted_column
rand loc = bit_xor (bit_xor loc.line (shifted_column loc.column)) (hash_from 0 loc.file_name)
