-- ===== src/Device/Tests.antt =====
-- The theorems at pins 14 and 15 of the UART and at a timer near its wrap.
use hob_os.Base.{
  ℕ, ◌+◌, ◌-◌, ◌%◌, ◌^◌, ◌<◌, ◌≡◌, ◌≢◌, ◌⊎◌, refl, false, [], ◌∷◌, ◌==◌, if◌then◌else◌, arith,
}
use hob_os.Base.Run.{fault, Ends, ◌>>◌}
use hob_os.Device.{Device, Timer, generic_set_gpio_func, set_timer, mmio_init}
use hob_os.Device.Clock.{set_timer-ticks}
use hob_os.Device.Drivers.{Drivers, init_device_drivers, enable_interrupts}
use hob_os.Device.Interrupts.{enable_interrupts-board}
use hob_os.Device.Pins.{function_at, generic_set_gpio_func-other}
use hob_os.Device.Version.{part_of, mmio_init-base}

abbrev board : Device
board = record {
  register = λ a. if a == 0x3f003004 then 0xfffffff0 else 5;
  written = [];
  rpi_version = 3;
  mmio_base = 0x3f000000;
}

abbrev system_timer : Timer
system_timer = record { msb = 0x3008; lsb = 0x3004 }

generic_set_gpio_func-other_example :
    Ends
      (λ _ v.
        (a b : ℕ) × (v.written ≡ (0x3f200004, b) ∷ (0x3f200004, a) ∷ [])
        × (4 < 0x18)
        × (function_at a 4 ≡ 4)
        × (function_at b 5 ≡ 4)
        × (function_at b 4 ≡ 0))
      ((do generic_set_gpio_func 14 4 0x3f200000; generic_set_gpio_func 15 4 0x3f200000) board)
generic_set_gpio_func-other_example =
    generic_set_gpio_func-other 14 15 4 4 0x3f200000 board refl (omega arith) (omega arith)
      (omega arith) (omega arith)

set_timer-ticks_example :
    Ends
      (λ _ v.
        (c : ℕ) × (v.written ≡ (0x3f003010, c) ∷ [])
        × (c < 2 ^ 32)
        × ((0xfffffff0 + 0x20) % 2 ^ 32 ≡ c)
        × ((c + 2 ^ 32 - 0xfffffff0) % 2 ^ 32 ≡ 0x20))
      (set_timer system_timer 0x20 board)
set_timer-ticks_example = set_timer-ticks system_timer 0x20 board (omega arith)

mmio_init-base_example :
    Ends
      (λ _ v.
        (((part_of 0x414FD0B1 ≡ 0xB76) × (v.rpi_version ≡ 1) × (v.mmio_base ≡ 0x20000000))
          ⊎ (((part_of 0x414FD0B1 ≡ 0xC07) × (v.rpi_version ≡ 2) × (v.mmio_base ≡ 0x20000000))
              ⊎ (((part_of 0x414FD0B1 ≡ 0xD03) × (v.rpi_version ≡ 3) × (v.mmio_base ≡ 0x3f000000))
                  ⊎ (((part_of 0x414FD0B1 ≡ 0xD08)
                        × (v.rpi_version ≡ 4)
                        × (v.mmio_base ≡ 0xfe000000))
                      ⊎ ((part_of 0x414FD0B1 ≢ 0xB76)
                          × (part_of 0x414FD0B1 ≢ 0xC07)
                          × (part_of 0x414FD0B1 ≢ 0xD03)
                          × (part_of 0x414FD0B1 ≢ 0xD08)
                          × (v.rpi_version ≡ 0)
                          × (v.mmio_base ≡ 0x20000000))))))
        × (v.written ≡ []))
      (mmio_init 0x414FD0B1 board)
mmio_init-base_example = mmio_init-base 0x414FD0B1 board

-- Before the start, on the third and on the fourth board
abbrev at_start : ℕ → Drivers
at_start version = record {
  device = record board { rpi_version = version };
  global_timer = record { base = 0; registers = record { msb = 0; lsb = 0 }; functions = false };
  soc_irq = record { base = 0; functions = false };
}

enable_interrupts-board_example : (do init_device_drivers; enable_interrupts) (at_start 4) ≡ fault
enable_interrupts-board_example = enable_interrupts-board (at_start 4) refl
