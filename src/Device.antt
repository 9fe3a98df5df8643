-- ===== src/Device.antt =====
-- io.c, mmio.c, gpio.c, timer.c and irq_bcm.c: the accesses to device registers. What a register
-- gives when it is read is the device's, and an argument of the state; the writes are kept with
-- their address, the last one first. Barriers are not modelled.
pub mod Clock
pub mod Pins
pub mod Version
pub mod Drivers
pub mod Interrupts
mod Tests
use Prim.Native.Nat.{bit_or, bit_and}
use hob_os.Base.{
  ℕ, zero, suc, ◌+◌, ◌-◌, ◌*◌, ◌/◌, ◌%◌, ◌^◌, List, [], ◌∷◌, Bool, ◌==◌, if◌then◌else◌,
}
use hob_os.Base.Run.{Cmd, pure, gets, modify, ◌>>=◌, ◌>>◌}
use hob_os.Task.{Ptr}

pub record Device : Type 0 where
  pub register : ℕ → ℕ
  pub written : List (ℕ × ℕ)
  pub rpi_version : ℕ
  pub mmio_base : ℕ

abbrev pub bitp : ℕ → ℕ
bitp pos = 2 ^ pos % 2 ^ 64

-- `val` is unsigned, of 32 bits.
unfoldable pub iowrite32 : ℕ → ℕ → Cmd Device (Unit {0})
iowrite32 addr val = modify (λ s. record s { written = (addr, val % 2 ^ 32) ∷ s.written })

unfoldable pub ioread32 : ℕ → Cmd Device ℕ
ioread32 addr = gets (λ s. s.register addr % 2 ^ 32)

-- `reg` is what `midr_el1` holds. The case 0xD0B has no `break`.
unfoldable pub get_rpi_version : ℕ → Cmd Device (Unit {0})
get_rpi_version reg =
    let part : ℕ = reg / 2 ^ 4 % 2 ^ 12 in
    let set : ℕ → Cmd Device (Unit {0}) = λ v. modify (λ s. record s { rpi_version = v }) in
    if part == 0xB76
    then set 1
    else (if part == 0xC07
        then set 2
        else (if part == 0xD03
            then set 3
            else (if part == 0xD08
                then set 4
                else (if part == 0xD0B then (do set 5; set 0) else set 0))))

unfoldable pub mmio_init : ℕ → Cmd Device (Unit {0})
mmio_init reg = do
  get_rpi_version reg
  v ← gets Device.rpi_version
  let base =
      if v == 3
      then 0x3f000000
      else (if v == 4 then 0xfe000000 else (if v == 5 then 0x107cfd1000 else 0x20000000))
  modify (λ s. record s { mmio_base = base })

unfoldable pub mmio_write : ℕ → ℕ → Cmd Device (Unit {0})
mmio_write offset val = do base ← gets Device.mmio_base; iowrite32 ((base + offset) % 2 ^ 64) val

unfoldable pub mmio_read : ℕ → Cmd Device ℕ
mmio_read offset = do base ← gets Device.mmio_base; ioread32 ((base + offset) % 2 ^ 64)

abbrev pub gpio_reg : ℕ → ℕ → ℕ
gpio_reg base offset = (base + offset) % 2 ^ 64

-- `GPFSEL_BANK`, `GPCLR_BANK` and `GPF_CFG`; a configuration is an unsigned int.
abbrev pub gpfsel_bank : ℕ → ℕ
gpfsel_bank pin_nr = 4 * (pin_nr / 10)

abbrev pub gpclr_bank : ℕ → ℕ
gpclr_bank pin = 0x28 + 4 * (pin / 32)

abbrev pub gpf_cfg : ℕ → ℕ → ℕ
gpf_cfg pin val = val * 2 ^ (pin % 10 * 3) % 2 ^ 32

unfoldable pub generic_clear_gpio : ℕ → ℕ → Cmd Device (Unit {0})
generic_clear_gpio pin_nr base = iowrite32 (gpio_reg base (gpclr_bank pin_nr)) (bitp pin_nr)

unfoldable pub generic_set_gpio_func : ℕ → ℕ → ℕ → Cmd Device (Unit {0})
generic_set_gpio_func pin_nr val base =
    iowrite32 (gpio_reg base (gpfsel_bank pin_nr)) (gpf_cfg pin_nr val)

unfoldable pub generic_set_gpio_val : ℕ → ℕ → Cmd Device (Unit {0})
generic_set_gpio_val pin_nr base = do
  x ← ioread32 (gpio_reg base (0x1C + 4 * (pin_nr / 32)))
  iowrite32 (gpio_reg base (0x1C + 4 * (pin_nr / 32))) (bit_or x (bitp pin_nr))

-- The offsets of the registers of the timer
pub record Timer : Type 0 where
  pub msb : ℕ
  pub lsb : ℕ

unfoldable pub read_timer32 : Bool → Timer → Cmd Device ℕ
read_timer32 msb t = if msb then mmio_read t.msb else mmio_read t.lsb

unfoldable pub read_timer64 : Timer → Cmd Device ℕ
read_timer64 t = do val ← mmio_read t.lsb; high ← mmio_read t.msb; pure (bit_or val (high * 2 ^ 32))

-- The first compare register is at 0x3010, and `BASE_OFF` is 0x3000.
unfoldable pub set_timer : Timer → ℕ → Cmd Device (Unit {0})
set_timer t val = do now ← mmio_read t.lsb; mmio_write 0x3010 ((now + val) % 2 ^ 32)

unfoldable pub reset_timer : Cmd Device (Unit {0})
reset_timer = mmio_write 0x3000 (bitp 1)

-- `base` is that of the controller.
unfoldable pub bcm_irq_enable_interrupt : ℕ → ℕ → Cmd Device (Unit {0})
bcm_irq_enable_interrupt base int_nr = iowrite32 ((base + 0x210) % 2 ^ 64) (bitp int_nr % 2 ^ 32)

unfoldable pub bcm_irq_disable_interrupt : ℕ → ℕ → Cmd Device (Unit {0})
bcm_irq_disable_interrupt base int_nr = iowrite32 ((base + 0x224) % 2 ^ 64) (bitp int_nr % 2 ^ 32)
