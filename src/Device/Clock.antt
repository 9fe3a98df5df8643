-- ===== src/Device/Clock.antt =====
-- The counter of the timer.
use Prim.Native.Nat.{bit_or}
use hob_os.Base.{ℕ, ◌+◌, ◌*◌, ◌/◌, ◌%◌, ◌^◌, ◌<◌, ◌≡◌, refl, ap, ◌-◌, arith, ◌∷◌}
use hob_os.Base.Bits.{bit_or-shift, bit_or-mask, bit_or-zero, zero-bit_or}
use hob_os.Base.Run.{Ends, ends}
use hob_os.Device.{
  Device, Timer, read_timer64, set_timer, mmio_read, mmio_write, ioread32, iowrite32,
}

-- Words side by side
bit_or-high : (a b : ℕ) → a < 2 ^ 32 → bit_or a (b * 2 ^ 32) ≡ a + b * 2 ^ 32
bit_or-high a b h =
    let x = bit_or a (b * 2 ^ 32) in
    let a1 : a / 2 ^ 32 ≡ 0 = omega arith in
    let a2 : a % 2 ^ 32 ≡ a = omega arith in
    let b1 : b * 2 ^ 32 / 2 ^ 32 ≡ b = omega arith in
    let b2 : b * 2 ^ 32 % 2 ^ 32 ≡ 0 = omega arith in
    let high : x / 2 ^ 32 ≡ b = rw (bit_or-shift 32 a (b * 2 ^ 32), a1, b1) (zero-bit_or b) in
    let low : x % 2 ^ 32 ≡ a = rw (bit_or-mask 32 a (b * 2 ^ 32), a2, b2) (bit_or-zero a) in
    omega (arith, high, low)

-- The value of the low register, through `mmio_read`
abbrev low_word : Timer → Device → ℕ
low_word t s = s.register ((s.mmio_base + t.lsb) % 2 ^ 64) % 2 ^ 32

abbrev high_word : Timer → Device → ℕ
high_word t s = s.register ((s.mmio_base + t.msb) % 2 ^ 64) % 2 ^ 32

-- `read_timer64` ends with the high register's value times 2 ^ 32 and the low one's, as if both were
-- read at one time, and writes nothing.
pub read_timer64-value :
    (t : Timer) (s : Device)
    → Ends (λ r v. (r ≡ low_word t s + high_word t s * 2 ^ 32) × (v ≡ s)) (read_timer64 t s)
unfolding read_timer64 mmio_read ioread32
read_timer64-value t s = ends (bit_or-high (low_word t s) (high_word t s) (omega arith), refl)

-- `val` is below 2 ^ 32. Then `set_timer` ends with one write, of a value below 2 ^ 32 that the
-- counter, which wraps at 2 ^ 32, reaches after `val` ticks from the value that was read.
pub set_timer-ticks :
    (t : Timer) (val : ℕ) (s : Device)
    → val < 2 ^ 32
    → Ends
        (λ _ v.
          (c : ℕ) × (v.written ≡ ((s.mmio_base + 0x3010) % 2 ^ 64, c) ∷ s.written)
          × (c < 2 ^ 32)
          × ((low_word t s + val) % 2 ^ 32 ≡ c)
          × ((c + 2 ^ 32 - low_word t s) % 2 ^ 32 ≡ val))
        (set_timer t val s)
unfolding set_timer mmio_read mmio_write ioread32 iowrite32
set_timer-ticks t val s h =
    let now = low_word t s in
    let c = (now + val) % 2 ^ 32 in
    let whole : c % 2 ^ 32 ≡ c = omega arith in
    let back : (c + 2 ^ 32 - now) % 2 ^ 32 ≡ val = omega arith in
    ends
      (c, ap (λ x. ((s.mmio_base + 0x3010) % 2 ^ 64, x) ∷ s.written) whole, omega arith, refl, back)
