-- ===== src/Rand/Xor.antt =====
-- Laws of the exclusive or.
use Prim.Native.Nat.{bit_xor, bit_xor-bitwise, digits, differ}
use native.Mathlib.Nat.{pow-suc}
use writeboost_rcu.Common.{ap, ℕ, zero, suc, ◌+◌, ◌*◌, ◌/◌, ◌%◌, ◌^◌, ◌≤◌, ◌<◌, ◌≡◌, refl, arith}

abbrev xor_digits : ℕ → ℕ → ℕ → ℕ
xor_digits n a b = digits (λ b. b) differ n a b

xor_digits-fuel : (n m a b : ℕ) → a ≤ n → a ≤ m → xor_digits n a b ≡ xor_digits m a b
xor_digits-fuel zero zero a b p q = refl
xor_digits-fuel zero (suc m) zero b p q = refl
xor_digits-fuel zero (suc m) (suc a) b p q = absurd (omega arith)
xor_digits-fuel (suc n) zero zero b p q = refl
xor_digits-fuel (suc n) zero (suc a) b p q = absurd (omega arith)
xor_digits-fuel (suc n) (suc m) zero b p q = refl
xor_digits-fuel (suc n) (suc m) (suc a) b p q =
    omega (arith, xor_digits-fuel n m (suc a / 2) (b / 2) (omega arith) (omega arith))

zero-bit_xor : (b : ℕ) → bit_xor 0 b ≡ b
zero-bit_xor b = bit_xor-bitwise 0 b

-- One digit at a time.
bit_xor_step : (a b : ℕ) → bit_xor a b ≡ bit_xor (a / 2) (b / 2) * 2 + differ (a % 2) (b % 2)
bit_xor_step zero b = omega (arith, zero-bit_xor b, zero-bit_xor (b / 2))
bit_xor_step (suc a) b = omega (
  arith,
  bit_xor-bitwise (suc a) b,
  bit_xor-bitwise (suc a / 2) (b / 2),
  xor_digits-fuel a (suc a / 2) (suc a / 2) (b / 2) (omega arith) (omega arith),
)

-- The exclusive or of two binary digits, by the digit.
differ-zero : (x : ℕ) → differ x 0 ≡ x
differ-zero zero = refl
differ-zero (suc x) = refl

differ_digits : (x y : ℕ) → x < 2 → y < 2 → differ x y ≡ (x + y) % 2
differ_digits zero y p q = omega arith
differ_digits (suc zero) zero p q = refl
differ_digits (suc zero) (suc zero) p q = refl
differ_digits (suc zero) (suc (suc y)) p q = absurd (omega arith)
differ_digits (suc (suc x)) y p q = absurd (omega arith)

-- Fields that do not overlap are added.
pub bit_xor_fields : (k q r : ℕ) → r < 2 ^ k → bit_xor r (q * 2 ^ k) ≡ q * 2 ^ k + r
bit_xor_fields zero q r fits = ground (arith, zero-bit_xor q)
bit_xor_fields (suc k) q r fits = omega (
  arith,
  even,
  pow-suc 2 k,
  halved,
  differ-zero (r % 2),
  bit_xor_fields k q (r / 2) (omega (arith, pow-suc 2 k)),
)
  where
    even : q * 2 ^ suc k ≡ 2 * (q * 2 ^ k)
    even = omega (arith, ap (λ (t : ℕ). q * t) (pow-suc 2 k))

    half_of : (t : ℕ) → t ≡ 2 * (q * 2 ^ k) → (t / 2 ≡ q * 2 ^ k) × (t % 2 ≡ 0)
    half_of t e = omega arith

    halved : bit_xor r (q * 2 ^ suc k) ≡ bit_xor (r / 2) (q * 2 ^ k) * 2 + differ (r % 2) 0
    halved =
        let (half, rest) = half_of (q * 2 ^ suc k) even in
        rw (bit_xor_step r (q * 2 ^ suc k), half, rest)

-- What was added by exclusive or can be taken off both sides.
bit_xor_cancel_below : (n a b h : ℕ) → a ≤ n → b ≤ n → bit_xor a h ≡ bit_xor b h → a ≡ b
bit_xor_cancel_below zero a b h p q e = omega arith
bit_xor_cancel_below (suc n) a b h p q e = omega (
  arith,
  e,
  bit_xor_step a h,
  bit_xor_step b h,
  differ_digits (a % 2) (h % 2) (omega arith) (omega arith),
  differ_digits (b % 2) (h % 2) (omega arith) (omega arith),
  bit_xor_cancel_below n (a / 2) (b / 2) (h / 2) (omega arith) (omega arith) (
      omega (
        arith,
        e,
        bit_xor_step a h,
        bit_xor_step b h,
        differ_digits (a % 2) (h % 2) (omega arith) (omega arith),
        differ_digits (b % 2) (h % 2) (omega arith) (omega arith),
      )),
)

pub bit_xor_cancel : (a b h : ℕ) → bit_xor a h ≡ bit_xor b h → a ≡ b
bit_xor_cancel a b h e = bit_xor_cancel_below (a + b) a b h (omega arith) (omega arith) e
