-- ===== src/Rand/Distinct.antt =====
-- When two calls of `wbrcu::rand()` give different numbers.
use Prim.Native.Nat.{bit_xor}
use writeboost_rcu.Common.{ℕ, ◌+◌, ◌*◌, ◌^◌, ◌<◌, ◌≡◌, ap, sym, ◌∙◌, arith}
use writeboost_rcu.Rand.{SourceLocation, hash_from, shifted_column, rand}
use writeboost_rcu.Rand.Xor.{bit_xor_fields, bit_xor_cancel}

-- The line and the column stand in separate bits.
seed-fields :
    (line column : ℕ) → line < 2 ^ 16 → bit_xor line (column * 2 ^ 16) ≡ column * 2 ^ 16 + line
seed-fields line column h = bit_xor_fields 16 column line h

-- Two calls in one file, on lines and in columns below 65536, give the same number only if they are
-- on the same line and in the same column.
pub rand_distinct :
    (a b : SourceLocation)
    → a.file_name ≡ b.file_name
    → a.line < 2 ^ 16
    → b.line < 2 ^ 16
    → a.column < 2 ^ 16
    → b.column < 2 ^ 16
    → rand a ≡ rand b
    → (a.line ≡ b.line) × (a.column ≡ b.column)
unfolding rand
rand_distinct a b file la lb ca cb e = omega (arith, seeds)
  where
    unshifted : (c : ℕ) → c < 2 ^ 16 → shifted_column c ≡ c * 2 ^ 16
    unshifted c h = omega arith

    seeds : a.column * 2 ^ 16 + a.line ≡ b.column * 2 ^ 16 + b.line
    seeds =
        sym (seed-fields a.line a.column la)
        ∙ ap (bit_xor a.line) (sym (unshifted a.column ca))
        ∙ bit_xor_cancel _ _ (hash_from 0 a.file_name) (
            e
            ∙ ap (λ f. bit_xor (bit_xor b.line (shifted_column b.column)) (hash_from 0 f))
                (sym file))
        ∙ ap (bit_xor b.line) (unshifted b.column cb)
        ∙ seed-fields b.line b.column lb

-- The bits of the column from 16 on do not count: a call 65536 columns to the right on the same
-- line gives the same number.
pub rand-column_wraps :
    (a : SourceLocation) → rand (record a { column = a.column + 2 ^ 16 }) ≡ rand a
unfolding rand
rand-column_wraps a = ap (λ c. bit_xor (bit_xor a.line c) (hash_from 0 a.file_name)) (omega arith)
