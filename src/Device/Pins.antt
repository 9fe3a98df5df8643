-- ===== src/Device/Pins.antt =====
-- The configuration of the pins.
use Prim.Native.Nat.{bit_or}
use native.Mathlib.Nat.{pow-suc, pow-le-pow_right, div-div-eq-div-mul}
use hob_os.Base.{
  ℕ, zero, suc, ◌+◌, ◌-◌, ◌*◌, ◌/◌, ◌%◌, ◌^◌, ◌<◌, ◌≤◌, ◌≡◌, ◌≢◌, ◌∙◌, refl, sym, ap, ◌∷◌, arith,
}
use hob_os.Base.Bits.{bit_or-mask, bit_or-zero}
use hob_os.Base.Run.{Ends, ends, ◌>>◌}
use hob_os.Device.{
  Device, bitp, gpio_reg, gpf_cfg, generic_set_gpio_func, generic_set_gpio_val, iowrite32, ioread32,
}

-- The function that a value of the register gives to the pin at the position `i`: 0 is an input.
abbrev pub function_at : ℕ → ℕ → ℕ
function_at reg i = reg / 8 ^ i % 8

eight_pow : (i : ℕ) → 2 ^ (i * 3) ≡ 8 ^ i
eight_pow zero = refl
eight_pow (suc i) =
    let e : suc i * 3 ≡ suc (suc (suc (i * 3))) = omega arith in
    rw
      (
        e,
        pow-suc 2 (suc (suc (i * 3))),
        pow-suc 2 (suc (i * 3)),
        pow-suc 2 (i * 3),
        pow-suc 8 i,
        eight_pow i,
      )
      (omega arith)

pow_pos : (i : ℕ) → 0 < 8 ^ i
pow_pos zero = omega arith
pow_pos (suc i) = omega (arith, pow-suc 8 i, pow_pos i)

div_suc : (i x : ℕ) → x / 8 ^ suc i ≡ x / 8 / 8 ^ i
div_suc i x =
    let e : 8 ^ i * 8 ≡ 8 * 8 ^ i = omega arith in
    rw (pow-suc 8 i, e, div-div-eq-div-mul x 8 (8 ^ i)) refl

zero_div : (i : ℕ) → 0 / 8 ^ i ≡ 0
zero_div zero = refl
zero_div (suc i) = div_suc i 0 ∙ zero_div i

up : (g i : ℕ) → g * 8 ^ suc i ≡ g * 8 ^ i * 8
up g i = rw (pow-suc 8 i) (omega arith)

function_at-same : (i g : ℕ) → g < 8 → function_at (g * 8 ^ i) i ≡ g
function_at-same zero g h = omega arith
function_at-same (suc i) g h =
    let e : g * 8 ^ suc i / 8 ≡ g * 8 ^ i = omega (arith, up g i) in
    rw (div_suc i (g * 8 ^ suc i), e) (function_at-same i g h)

function_at-other : (i j g : ℕ) → g < 8 → i ≢ j → function_at (g * 8 ^ j) i ≡ 0
function_at-other zero zero g h ne = absurd (ne refl)
function_at-other zero (suc j) g h ne = omega (arith, up g j)
function_at-other (suc i) zero g h ne =
    let e : g * 1 / 8 ≡ 0 = omega arith in rw (div_suc i (g * 1), e, zero_div i)
function_at-other (suc i) (suc j) g h ne =
    let e : g * 8 ^ suc j / 8 ≡ g * 8 ^ j = omega (arith, up g j) in
    rw (div_suc i (g * 8 ^ suc j), e) (function_at-other i j g h (λ x. ne (ap suc x)))

below : (j g : ℕ) → g < 8 → g * 8 ^ j < 8 ^ suc j
below zero g h = omega arith
below (suc j) g h = omega (arith, up g j, below j g h, pow-suc 8 (suc j))

-- A configuration of 3 bits at one of 10 positions fits into 32 bits.
fits : (j g : ℕ) → g < 8 → j < 10 → g * 8 ^ j < 2 ^ 32
fits j g h l =
    let most : 8 ^ suc j ≤ 8 ^ 10 = pow-le-pow_right (omega arith) {j = 10} (omega arith) in
    omega (arith, below j g h, most)

cfg : (pin g : ℕ) → g < 8 → gpf_cfg pin g % 2 ^ 32 ≡ g * 8 ^ (pin % 10)
cfg pin g h =
    let small : g * 8 ^ (pin % 10) < 2 ^ 32 = fits (pin % 10) g h (omega arith) in
    let e : gpf_cfg pin g ≡ g * 8 ^ (pin % 10) % 2 ^ 32 =
      ap (λ x. g * x % 2 ^ 32) (eight_pow (pin % 10)) in
    rw e (omega arith)

-- Two pins `p` and `q` of one register, below 60, with functions of 3 bits. After a call of
-- `generic_set_gpio_func` for `p` and one for `q`, the two last writes went to that register, which is
-- one of the first six, and the last value gives `q` its function but makes `p` an input again.
pub generic_set_gpio_func-other :
    (p q f g base : ℕ) (s : Device)
    → p / 10 ≡ q / 10
    → p ≢ q
    → q < 60
    → f < 8
    → g < 8
    → Ends
        (λ _ v.
          (a b : ℕ) × (v.written
            ≡ (gpio_reg base (4 * (q / 10)), b) ∷ (gpio_reg base (4 * (q / 10)), a) ∷ s.written)
          × (4 * (q / 10) < 0x18)
          × (function_at a (p % 10) ≡ f)
          × (function_at b (q % 10) ≡ g)
          × (function_at b (p % 10) ≡ 0))
        ((do generic_set_gpio_func p f base; generic_set_gpio_func q g base) s)
unfolding generic_set_gpio_func iowrite32
generic_set_gpio_func-other p q f g base s same ne small hf hg =
    let apart : p % 10 ≢ q % 10 = omega arith in
    ends (
      gpf_cfg p f % 2 ^ 32,
      gpf_cfg q g % 2 ^ 32,
      rw same refl,
      omega arith,
      rw (cfg p f hf) (function_at-same (p % 10) f hf),
      rw (cfg q g hg) (function_at-same (q % 10) g hg),
      rw (cfg q g hg) (function_at-other (p % 10) (q % 10) g hg apart),
    )

high_bit : (k : ℕ) → 2 ^ (k + 32) % 2 ^ 32 ≡ 0
high_bit zero = refl
high_bit (suc k) =
    let e : suc k + 32 ≡ suc (k + 32) = omega arith in
    rw (e, pow-suc 2 (k + 32)) (omega (arith, high_bit k))

-- For a pin from 32 to 63, `generic_set_gpio_val` ends with one write, to the second register, of the
-- very value that it has read there: no bit is set.
generic_set_gpio_val-high :
    (pin base : ℕ) (s : Device)
    → 32 ≤ pin
    → pin < 64
    → Ends
        (λ _ v.
          v.written ≡ (gpio_reg base 0x20, s.register (gpio_reg base 0x20) % 2 ^ 32) ∷ s.written)
        (generic_set_gpio_val pin base s)
unfolding generic_set_gpio_val ioread32 iowrite32
generic_set_gpio_val-high pin base s low high =
    let bank : 0x1C + 4 * (pin / 32) ≡ 0x20 = omega arith in
    let x = s.register (gpio_reg base 0x20) % 2 ^ 32 in
    let same : x % 2 ^ 32 ≡ x = omega arith in
    let up : pin - 32 + 32 ≡ pin = omega arith in
    let bit : 2 ^ pin % 2 ^ 32 ≡ 0 = ap (λ p. 2 ^ p % 2 ^ 32) (sym up) ∙ high_bit (pin - 32) in
    let none : bitp pin % 2 ^ 32 ≡ 0 = omega (arith, bit) in
    let kept : bit_or x (bitp pin) % 2 ^ 32 ≡ x =
      rw (bit_or-mask 32 x (bitp pin), none, same) (bit_or-zero x) in
    rw bank (ends (ap (λ y. (gpio_reg base 0x20, y) ∷ s.written) kept))
