-- ===== src/Base/Xor.antt =====
-- `bit_xor` with a power of two.
use Prim.Native.Nat.{
  ℕ, zero, suc, ◌+◌, ◌*◌, ◌/◌, ◌%◌, ◌^◌, ◌≤◌, ◌<◌, differ, digits, bit_xor, bit_xor-bitwise,
}
use mathlib.Core.Path.{◌≡◌, refl}
use mathlib.Core.Logic.{◌≢◌}
use native.Mathlib.Nat.{pow-suc}
use native.Mathlib.Omega.{arith}

-- The digits of the exclusive or, with `n` at least the first number.
abbrev xor_digits : ℕ → ℕ → ℕ → ℕ
xor_digits n a b = digits (λ b. b) differ n a b

xor_digits_fuel : (n m a b : ℕ) → a ≤ n → a ≤ m → xor_digits n a b ≡ xor_digits m a b
xor_digits_fuel zero zero a b p q = refl
xor_digits_fuel zero (suc m) zero b p q = refl
xor_digits_fuel zero (suc m) (suc a) b p q = absurd (omega arith)
xor_digits_fuel (suc n) zero zero b p q = refl
xor_digits_fuel (suc n) zero (suc a) b p q = absurd (omega arith)
xor_digits_fuel (suc n) (suc m) zero b p q = refl
xor_digits_fuel (suc n) (suc m) (suc a) b p q =
    omega (arith, xor_digits_fuel n m (suc a / 2) (b / 2) (omega arith) (omega arith))

zero-bit_xor : (b : ℕ) → bit_xor 0 b ≡ b
zero-bit_xor b = bit_xor-bitwise 0 b

differ_zero : (d : ℕ) → d < 2 → differ 0 d ≡ d
differ_zero zero h = refl
differ_zero (suc zero) h = refl
differ_zero (suc (suc d)) h = absurd (omega arith)

differ_one : (d : ℕ) → d < 2 → differ 1 d + d ≡ 1
differ_one zero h = refl
differ_one (suc zero) h = refl
differ_one (suc (suc d)) h = absurd (omega arith)

bit_xor_step : (a b : ℕ) → bit_xor a b ≡ bit_xor (a / 2) (b / 2) * 2 + differ (a % 2) (b % 2)
bit_xor_step zero b =
    omega (arith, zero-bit_xor b, zero-bit_xor (b / 2), differ_zero (b % 2) (omega arith))
bit_xor_step (suc a) b = omega (
  arith,
  bit_xor-bitwise (suc a) b,
  bit_xor-bitwise (suc a / 2) (b / 2),
  xor_digits_fuel a (suc a / 2) (suc a / 2) (b / 2) (omega arith) (omega arith),
)

bit_xor_one : (b : ℕ) → bit_xor 1 b ≡ b / 2 * 2 + differ 1 (b % 2)
bit_xor_one b = omega (arith, bit_xor_step 1 b, zero-bit_xor (b / 2))

-- The lowest digit of a higher power is 0.
bit_xor_pow : (m b : ℕ) → bit_xor (2 ^ suc m) b ≡ bit_xor (2 ^ m) (b / 2) * 2 + b % 2
bit_xor_pow m b =
    let half : 2 ^ suc m / 2 ≡ 2 ^ m = omega (arith, pow-suc 2 m) in
    let low : 2 ^ suc m % 2 ≡ 0 = omega (arith, pow-suc 2 m) in
    rw (bit_xor_step (2 ^ suc m) b, half, low, differ_zero (b % 2) (omega arith)) refl

-- The power is taken out of a number that has it.
pub bit_xor-clear : (m a : ℕ) → bit_xor (2 ^ m) (a * 2 ^ suc m + 2 ^ m) ≡ a * 2 ^ suc m
bit_xor-clear zero a =
    let half : (a * 2 + 1) / 2 ≡ a = omega arith in
    let low : (a * 2 + 1) % 2 ≡ 1 = omega arith in
    rw (bit_xor_one (a * 2 + 1), half, low) (omega arith)
bit_xor-clear (suc m) a =
    let x = a * 2 ^ suc (suc m) + 2 ^ suc m in
    let twice : a * 2 ^ suc (suc m) ≡ a * 2 ^ suc m * 2 = rw (pow-suc 2 (suc m)) (omega arith) in
    let half : x / 2 ≡ a * 2 ^ suc m + 2 ^ m = omega (arith, pow-suc 2 m, twice) in
    let low : x % 2 ≡ 0 = omega (arith, pow-suc 2 m, twice) in
    rw (bit_xor_pow m x, half, low, bit_xor-clear m a) (omega (arith, twice))

pub bit_xor-ne : (m x : ℕ) → bit_xor (2 ^ m) x ≢ x
bit_xor-ne zero x e = omega (arith, bit_xor_one x, differ_one (x % 2) (omega arith))
bit_xor-ne (suc m) x e = bit_xor-ne m (x / 2) (omega (arith, bit_xor_pow m x))

-- The power is put into a number that is a multiple of the next one.
pub bit_xor-set : (m a : ℕ) → bit_xor (2 ^ m) (a * 2 ^ suc m) ≡ a * 2 ^ suc m + 2 ^ m
bit_xor-set zero a =
    let half : a * 2 / 2 ≡ a = omega arith in
    let low : a * 2 % 2 ≡ 0 = omega arith in rw (bit_xor_one (a * 2), half, low) (omega arith)
bit_xor-set (suc m) a =
    let x = a * 2 ^ suc (suc m) in
    let twice : x ≡ a * 2 ^ suc m * 2 = rw (pow-suc 2 (suc m)) (omega arith) in
    let half : x / 2 ≡ a * 2 ^ suc m = omega (arith, twice) in
    let low : x % 2 ≡ 0 = omega (arith, twice) in
    rw (bit_xor_pow m x, half, low, bit_xor-set m a) (omega (arith, twice, pow-suc 2 m))
