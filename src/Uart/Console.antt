-- ===== src/Uart/Console.antt =====
-- `setup_console` and `puts`: from the choice of the driver to the characters on its line.
use hob_os.Base.{
  ℕ, ◌+◌, ◌%◌, ◌^◌, ◌<◌, ◌≡◌, refl, subst, ap, List, Bool, true, false, inl, inr, ◌==◌,
  if◌then◌else◌, Bool-cases,
}
use hob_os.Base.Run.{ok, ◌>>◌, Ends, ends, Ends-eq, weaken}
use hob_os.PageTable.{va_to_pa}
use hob_os.Device.{generic_set_gpio_func, ioread32, iowrite32}
use hob_os.Uart.{
  Uart, CharDevice, mini_uart, pl011, GpioController, remapped, ioread8, iowrite8, iowrite16,
  gpio_set_fn, init_gpio, mini_uart_init, uart_init, init_console, setup_console, puts, puts_of,
}
use hob_os.Uart.Sent.{Sent, IsPatient, IsText, line_of, puts_by, puts_by-Printed}

-- What the initialisation leaves as it was
record Kept (s t : Uart) : Type 0 where
  register : t.register ≡ s.register
  uart_dev : t.uart_dev ≡ s.uart_dev
  console : t.console ≡ s.console

mini_uart_init-Kept :
    (ctrl : GpioController) (s : Uart)
    → ctrl.functions ≡ true
    → Ends (λ _ t. Kept s t) (mini_uart_init ctrl s)
unfolding mini_uart_init ioread8 iowrite8 iowrite16 ioread32 iowrite32 gpio_set_fn
    generic_set_gpio_func
mini_uart_init-Kept ctrl s e = elim (Bool-cases (ctrl.base == 0)) [
  | inl z ↦ rw z (ends (record { register = refl; uart_dev = refl; console = refl }))
  | inr z ↦ rw (z, e) (ends (record { register = refl; uart_dev = refl; console = refl }))
]

-- The device that `uart_init` sets up: `mini` is false on the fifth board.
abbrev pub device_at : Bool → ℕ → CharDevice
device_at mini mmio_base =
    if mini
    then record {
      base = remapped ((0x215000 + va_to_pa mmio_base) % 2 ^ 64);
      driver = mini_uart;
      quirks = true;
    }
    else record {
      base = remapped ((0x30000 + va_to_pa mmio_base) % 2 ^ 64);
      driver = pl011;
      quirks = false;
    }

-- The console is ready for `puts`.
record Ready (mini : Bool) (s t : Uart) : Type 0 where
  register : t.register ≡ s.register
  uart_dev : t.uart_dev ≡ device_at mini s.mmio_base
  console : t.console ≡ true

-- The boards with a driver, each with the driver's kind; on the fifth, `quirks` is not set.
abbrev pub IsBoard : Bool → Uart → Type 0
IsBoard mini s =
    if mini then s.rpi_version ≡ 3 else (s.rpi_version ≡ 5) × (s.uart_dev.quirks ≡ false)

setup_console-Ready :
    (mini : Bool) (ctrl : GpioController) (s : Uart)
    → IsBoard mini s
    → Ends (λ _ t. Ready mini s t) (setup_console ctrl s)
unfolding setup_console init_gpio init_console uart_init
setup_console-Ready true ctrl s e = rw e (
    weaken (mini_uart_init-Kept _ _ refl)
      λ _ t k. record { register = k.register; uart_dev = k.uart_dev; console = k.console })
setup_console-Ready false ctrl s (e, q) =
    rw (e, q) (ends (record { register = refl; uart_dev = refl; console = refl }))

puts-by :
    (mini : Bool) (fuel : ℕ) (cs : List ℕ) (t : Uart) {s : Uart}
    → Ready mini s t
    → puts fuel cs t ≡ puts_by mini fuel cs t
unfolding puts puts_of
puts-by true fuel cs t k = rw (k.console, ap CharDevice.driver k.uart_dev) refl
puts-by false fuel cs t k = rw (k.console, ap CharDevice.driver k.uart_dev) refl

-- The board is the third, or the fifth with `quirks` not set; in every row of `d` reads of the status
-- of its line, one finds it ready, and `d` is below the fuel. Then `setup_console`, whatever the stack
-- held before, and `puts` of a string of 8-bit characters end. Behind the writes of the set-up, the
-- data register of the board's line gets the characters, in order and nothing else, each behind a
-- read that found the line ready.
pub setup_console-puts :
    (mini : Bool) (ctrl : GpioController) (cs : List ℕ) (fuel d : ℕ) (s : Uart)
    → IsBoard mini s
    → IsText cs
    → d < fuel
    → IsPatient (line_of mini (device_at mini s.mmio_base)) s.register d
    → Ends
        (λ _ t.
          (u : Uart) × (setup_console ctrl s ≡ ok tt u)
          × Sent (line_of mini (device_at mini s.mmio_base)) s.register cs u.written t.written)
        ((do setup_console ctrl; puts fuel cs) s)
setup_console-puts mini ctrl cs fuel d s board text enough patient =
    let (_, u, e, k) = Ends-eq (setup_console-Ready mini ctrl s board) in
    rw (e, puts-by mini fuel cs u k)
      (weaken (puts_by-Printed fuel d enough mini cs u text (rw (k.register, k.uart_dev) patient))
        λ _ t (sent, reg, dev). (
          u,
          refl,
          subst (λ dev. Sent (line_of mini dev) s.register cs u.written t.written) k.uart_dev
              (subst (λ reg. Sent (line_of mini u.uart_dev) reg cs u.written t.written) k.register
                sent),
        ))
