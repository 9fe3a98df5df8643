-- ===== src/Base/Bits.antt =====
-- `bit_or` at variables: its lowest digit, and what it does to shifts and masks.
use Prim.Native.Nat.{
  ℕ, zero, suc, ◌+◌, ◌*◌, ◌/◌, ◌%◌, ◌^◌, ◌≤◌, ◌<◌, max, digits, bit_or, bit_or-bitwise,
}
use mathlib.Core.Path.{◌≡◌, refl, ap, ◌∙◌}
use native.Mathlib.Nat.{
  pow-suc, div-div-eq-div-mul, mod-lt, div-add-mod, mod-eq_of_lt, add-mul-mod_self_left,
}
use native.Mathlib.Omega.{arith}

-- The digits of the disjunction, with `n` at least the first number.
abbrev or_digits : ℕ → ℕ → ℕ → ℕ
or_digits n a b = digits (λ b. b) max n a b

or_digits_fuel : (n m a b : ℕ) → a ≤ n → a ≤ m → or_digits n a b ≡ or_digits m a b
or_digits_fuel zero zero a b p q = refl
or_digits_fuel zero (suc m) zero b p q = refl
or_digits_fuel zero (suc m) (suc a) b p q = absurd (omega arith)
or_digits_fuel (suc n) zero zero b p q = refl
or_digits_fuel (suc n) zero (suc a) b p q = absurd (omega arith)
or_digits_fuel (suc n) (suc m) zero b p q = refl
or_digits_fuel (suc n) (suc m) (suc a) b p q =
    omega (arith, or_digits_fuel n m (suc a / 2) (b / 2) (omega arith) (omega arith))

pub zero-bit_or : (b : ℕ) → bit_or 0 b ≡ b
zero-bit_or b = bit_or-bitwise 0 b

bit_or_step : (a b : ℕ) → bit_or a b ≡ bit_or (a / 2) (b / 2) * 2 + max (a % 2) (b % 2)
bit_or_step zero b = omega (arith, zero-bit_or b, zero-bit_or (b / 2))
bit_or_step (suc a) b = omega (
  arith,
  bit_or-bitwise (suc a) b,
  bit_or-bitwise (suc a / 2) (b / 2),
  or_digits_fuel a (suc a / 2) (suc a / 2) (b / 2) (omega arith) (omega arith),
)

bit_or-zero_fuel : (n a : ℕ) → a ≤ n → bit_or a 0 ≡ a
bit_or-zero_fuel n zero h = refl
bit_or-zero_fuel zero (suc a) h = absurd (omega arith)
bit_or-zero_fuel (suc n) (suc a) h =
    omega (arith, bit_or_step (suc a) 0, bit_or-zero_fuel n (suc a / 2) (omega arith))

pub bit_or-zero : (a : ℕ) → bit_or a 0 ≡ a
bit_or-zero a = bit_or-zero_fuel a a (omega arith)

bit_or_join :
    (a b x y : ℕ) → x < 2 → y < 2 → bit_or (a * 2 + x) (b * 2 + y) ≡ bit_or a b * 2 + max x y
bit_or_join a b x y h l =
    let ea : (a * 2 + x) / 2 ≡ a = omega arith in
    let eb : (b * 2 + y) / 2 ≡ b = omega arith in
    let ex : (a * 2 + x) % 2 ≡ x = omega arith in
    let ey : (b * 2 + y) % 2 ≡ y = omega arith in
    rw (bit_or_step (a * 2 + x) (b * 2 + y), ea, eb, ex, ey)

bit_or-half : (a b : ℕ) → bit_or a b / 2 ≡ bit_or (a / 2) (b / 2)
bit_or-half a b = omega (arith, bit_or_step a b)

shift_suc : (k x : ℕ) → x / 2 ^ suc k ≡ x / 2 / 2 ^ k
shift_suc k x =
    let e : 2 ^ k * 2 ≡ 2 * 2 ^ k = omega arith in
    rw (pow-suc 2 k, e, div-div-eq-div-mul x 2 (2 ^ k)) refl

pow_ne : (k : ℕ) → 0 < 2 ^ k
pow_ne zero = omega arith
pow_ne (suc k) = omega (arith, pow-suc 2 k, pow_ne k)

mask_twice : (m x : ℕ) → 0 < m → x % (m * 2) ≡ x / 2 % m * 2 + x % 2
mask_twice m x h =
    let r = x / 2 % m in
    let q = x / 2 / m in
    let small : r * 2 + x % 2 < m * 2 = omega (arith, mod-lt (x / 2) h) in
    let whole : x ≡ r * 2 + x % 2 + m * 2 * q = grind (arith, div-add-mod (x / 2) m) in
    ap (λ (y : ℕ). y % (m * 2)) whole
    ∙ add-mul-mod_self_left (r * 2 + x % 2) (m * 2) q
    ∙ mod-eq_of_lt small

mask_suc : (k x : ℕ) → x % 2 ^ suc k ≡ x / 2 % 2 ^ k * 2 + x % 2
mask_suc k x = rw (pow-suc 2 k) (mask_twice (2 ^ k) x (pow_ne k))

pub bit_or-shift : (k a b : ℕ) → bit_or a b / 2 ^ k ≡ bit_or (a / 2 ^ k) (b / 2 ^ k)
bit_or-shift zero a b =
    let one : (x : ℕ) → x / 1 ≡ x = λ x. omega arith in rw (one (bit_or a b), one a, one b)
bit_or-shift (suc k) a b =
    let out : (x : ℕ) → x / 2 ^ suc k ≡ x / 2 / 2 ^ k = λ x. shift_suc k x in
    rw (out (bit_or a b), out a, out b, bit_or-half a b) (bit_or-shift k (a / 2) (b / 2))

pub bit_or-mask : (k a b : ℕ) → bit_or a b % 2 ^ k ≡ bit_or (a % 2 ^ k) (b % 2 ^ k)
bit_or-mask zero a b =
    let none : (x : ℕ) → x % 1 ≡ 0 = λ x. omega arith in rw (none (bit_or a b), none a, none b)
bit_or-mask (suc k) a b =
    rw
      (
        mask_suc k a,
        mask_suc k b,
        bit_or_join (a / 2 % 2 ^ k) (b / 2 % 2 ^ k) (a % 2) (b % 2) (omega arith) (omega arith),
        mask_suc k (bit_or a b),
        bit_or-half a b,
        bit_or-mask k (a / 2) (b / 2),
      )
      (omega (arith, bit_or_step a b))
