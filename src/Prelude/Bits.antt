-- ===== src/Prelude/Bits.antt =====
-- `x & (2^k - 1)` keeps the k lowest binary digits of x.
use Prim.Native.Nat.{ℕ, zero, suc, ◌+◌, ◌*◌, ◌/◌, ◌%◌, ◌≤◌, min, bit_and, digits, bit_and-bitwise}
use mathlib.Core.Path.{◌≡◌, refl, ◌∙◌}
use native.Mathlib.Omega.{arith}

-- the number of k binary ones, and the k lowest digits of a number
abbrev ones : ℕ → ℕ
ones zero = 0
ones (suc k) = 1 + 2 * ones k

abbrev lowest : ℕ → ℕ → ℕ
lowest zero x = 0
lowest (suc k) x = x % 2 + 2 * lowest k (x / 2)

lowest-zero : (k : ℕ) → lowest k 0 ≡ 0
lowest-zero zero = refl
lowest-zero (suc k) = omega (arith, lowest-zero k)

digits-ones : (k fuel x : ℕ) → x ≤ fuel → digits (λ (b : ℕ). zero) min fuel x (ones k) ≡ lowest k x
digits-ones k zero zero h = omega (arith, lowest-zero k)
digits-ones k zero (suc x) h = absurd (omega arith)
digits-ones k (suc fuel) zero h = omega (arith, lowest-zero k)
digits-ones zero (suc fuel) (suc x) h =
    omega (arith, digits-ones zero fuel (suc x / 2) (omega arith))
digits-ones (suc k) (suc fuel) (suc x) h =
    let half : (1 + 2 * ones k) / 2 ≡ ones k = omega arith in
    rw half (omega (arith, digits-ones k fuel (suc x / 2) (omega arith)))

bit_and-ones : (k x : ℕ) → bit_and x (ones k) ≡ lowest k x
bit_and-ones k x = bit_and-bitwise x (ones k) ∙ digits-ones k x x (omega arith)

lowest_four : (x : ℕ) → lowest 4 x ≡ x % 16
lowest_four x = omega arith

lowest_eight : (x : ℕ) → lowest 8 x ≡ x % 256
lowest_eight x = omega (arith, lowest_four (x / 2 / 2 / 2 / 2))

-- Masking with twelve ones is the remainder by 4096.
pub bit_and_4095 : (a : ℕ) → bit_and a 4095 ≡ a % 4096
bit_and_4095 a = bit_and-ones 12 a ∙ omega (arith, lowest_eight (a / 2 / 2 / 2 / 2))
