-- ===== src/Uart.antt =====
-- uart.c, kstdio.c, and the part of gpio.c that chooses the functions: the serial line and the
-- console. What a register gives at each read is the device's, and an argument of the state; each
-- write is kept with the reads before it, the last one first. Barriers and `delay` are not modelled.
pub mod Sent
pub mod Console
mod Tests
use Prim.Native.Nat.{bit_and, bit_or}
use hob_os.Base.{
  ℕ, zero, suc, ◌+◌, ◌-◌, ◌%◌, ◌^◌, List, [], ◌∷◌, Bool, true, false, ◌==◌, if◌then◌else◌,
}
use hob_os.Base.Run.{Run, Cmd, ok, fault, out_of_fuel, pure, gets, modify, ◌>>=◌, ◌>>◌}
use hob_os.PageTable.{va_to_pa, pa_to_va}
use hob_os.Device.{
  Device, bitp, gpio_reg, generic_clear_gpio, generic_set_gpio_func, generic_set_gpio_val, ioread32,
  iowrite32,
}

pub record Write : Type 0 where
  pub reads_before : ℕ
  pub address : ℕ
  pub value : ℕ

-- The functions behind `getc`, `putc` and `puts`, which are set together
pub data Driver : Type 0 where
  unset : Driver
  mini_uart : Driver
  pl011 : Driver

-- `base` is 0 where it is not set; `quirks` is true where it is `mini_uart_init`.
pub record CharDevice : Type 0 where
  pub base : ℕ
  pub driver : Driver
  pub quirks : Bool

-- `functions` is true where the three functions of the controller are the generic ones, and false
-- where they are NULL.
pub record GpioController : Type 0 where
  pub base : ℕ
  pub functions : Bool

-- `register n a` is what the register `a` gives when `n` reads were made before.
pub record Uart : Type 0 where
  pub register : ℕ → ℕ → ℕ
  pub reads : ℕ
  pub written : List Write
  pub rpi_version : ℕ
  pub mmio_base : ℕ
  pub uart_dev : CharDevice
  pub console : Bool

unfoldable pub iowrite8 : ℕ → ℕ → Cmd Uart (Unit {0})
iowrite8 addr val = modify (λ s. record s {
  written = record { reads_before = s.reads; address = addr; value = val % 2 ^ 8 } ∷ s.written;
})

unfoldable pub iowrite16 : ℕ → ℕ → Cmd Uart (Unit {0})
iowrite16 addr val = modify (λ s. record s {
  written = record { reads_before = s.reads; address = addr; value = val % 2 ^ 16 } ∷ s.written;
})

unfoldable pub ioread8 : ℕ → Cmd Uart ℕ
ioread8 addr s = ok (s.register s.reads addr % 2 ^ 8) (record s { reads = s.reads + 1 })

-- The accesses of gpio.c, which have 32 bits. Each of its functions reads at most once.
abbrev tag : ℕ → List (ℕ × ℕ) → List Write → List Write
tag n [] old = old
tag n (w ∷ ws) old = record { reads_before = n; address = w.0; value = w.1 } ∷ tag n ws old

abbrev with_reads : {A : Type 0} → ℕ → Uart → Run Device A → Run Uart A
with_reads n s (ok a d) = ok a (record s { reads = n; written = tag n d.written s.written })
with_reads n s fault = fault
with_reads n s out_of_fuel = out_of_fuel

abbrev device_of : Uart → Device
device_of s = record {
  register = s.register s.reads;
  written = [];
  rpi_version = s.rpi_version;
  mmio_base = s.mmio_base;
}

abbrev pub writing : {A : Type 0} → Cmd Device A → Cmd Uart A
writing m s = with_reads s.reads s (m (device_of s))

abbrev pub reading : {A : Type 0} → Cmd Device A → Cmd Uart A
reading m s = with_reads (s.reads + 1) s (m (device_of s))

-- The address that `ioremap` returns where it returns; its entry in the page tables, and its panic
-- where the mapping fails, are not modelled here.
abbrev pub remapped : ℕ → ℕ
remapped addr = pa_to_va (va_to_pa addr)

-- The controller as it was is the argument, and the controller as it is then the value.
unfoldable pub init_gpio : GpioController → Cmd Uart GpioController
init_gpio ctrl = do
  v ← gets Uart.rpi_version
  base ← gets Uart.mmio_base
  if v == 3
      then pure (record { base = remapped ((base + 0x200000) % 2 ^ 64); functions = true })
      else pure ctrl

-- A call through a function pointer that is NULL
unfoldable pub gpio_set_fn : ℕ → ℕ → GpioController → Cmd Uart (Unit {0})
gpio_set_fn pin_nr val ctrl =
    if ctrl.functions then writing (generic_set_gpio_func pin_nr val ctrl.base) else (λ _. fault)

unfoldable pub gpio_clear : ℕ → GpioController → Cmd Uart (Unit {0})
gpio_clear pin_nr ctrl =
    if ctrl.functions then writing (generic_clear_gpio pin_nr ctrl.base) else (λ _. fault)

unfoldable pub gpio_set : ℕ → GpioController → Cmd Uart (Unit {0})
gpio_set pin_nr ctrl =
    if ctrl.functions then reading (generic_set_gpio_val pin_nr ctrl.base) else (λ _. fault)

-- The registers of both lines: `AUX_MU_IO`, `AUX_MU_LSR`, `AUX_MU_CNTL`, `DR` and `FR`
abbrev pub aux_mu_io : ℕ
aux_mu_io = 0x40

abbrev pub aux_mu_lsr : ℕ
aux_mu_lsr = 0x54

abbrev pub aux_mu_cntl : ℕ
aux_mu_cntl = 0x60

abbrev pub dr : ℕ
dr = 0x00

abbrev pub fr : ℕ
fr = 0x18

abbrev pub uart_reg : CharDevice → ℕ → ℕ
uart_reg dev offset = (dev.base + offset) % 2 ^ 64

abbrev bit : ℕ → ℕ → Bool
bit pos v = if bit_and v (bitp pos) == 0 then false else true

-- A loop that reads a register until the test holds of what it gives
abbrev poll : (ℕ → Bool) → ℕ → ℕ → Cmd Uart (Unit {0})
poll test addr zero = λ _. out_of_fuel
poll test addr (suc k) = do v ← ioread8 addr; if test v then pure tt else poll test addr k

module _ (fuel : ℕ) where
  unfoldable pub mini_uart_wait_for_idle : Cmd Uart (Unit {0})
  mini_uart_wait_for_idle = do dev ← gets Uart.uart_dev; poll (bit 6) (uart_reg dev aux_mu_lsr) fuel

  unfoldable pub mini_uart_putc : ℕ → Cmd Uart (Unit {0})
  mini_uart_putc c = do
    mini_uart_wait_for_idle
    dev ← gets Uart.uart_dev
    iowrite8 (uart_reg dev aux_mu_io) c

  -- A string is the list of its characters, up to the NUL.
  unfoldable pub mini_uart_puts : List ℕ → Cmd Uart (Unit {0})
  mini_uart_puts [] = pure tt
  mini_uart_puts (c ∷ s) = if c == 0 then pure tt else (do mini_uart_putc c; mini_uart_puts s)

  -- Bit 5 is set while the transmitter is full, bit 4 while the receiver is empty.
  unfoldable pub uart_wait_for_idle : Bool → Cmd Uart (Unit {0})
  uart_wait_for_idle tx_rx = do
    dev ← gets Uart.uart_dev
    if tx_rx
        then poll (λ v. bit_and v (bitp 5) == 0) (uart_reg dev fr) fuel
        else poll (λ v. bit_and v (bitp 4) == 0) (uart_reg dev fr) fuel

  unfoldable pub uart_putc : ℕ → Cmd Uart (Unit {0})
  uart_putc c = do uart_wait_for_idle true; dev ← gets Uart.uart_dev; iowrite8 (uart_reg dev dr) c

  unfoldable pub uart_puts : List ℕ → Cmd Uart (Unit {0})
  uart_puts [] = pure tt
  uart_puts (c ∷ s) = if c == 0 then pure tt else (do uart_putc c; uart_puts s)

  unfoldable pub uart_getc : Cmd Uart ℕ
  uart_getc = do uart_wait_for_idle false; dev ← gets Uart.uart_dev; ioread8 (uart_reg dev dr)

unfoldable pub mini_uart_getc : Cmd Uart ℕ
mini_uart_getc = pure 0

unfoldable pub mini_uart_init : GpioController → Cmd Uart (Unit {0})
mini_uart_init ctrl = if ctrl.base == 0 then pure tt else do
  dev ← gets Uart.uart_dev
  r ← reading (ioread32 (gpio_reg ctrl.base 0x04))
  writing
      (iowrite32 (gpio_reg ctrl.base 0x04) (bit_and r (2 ^ 64 - 1 - bit_or (bitp 14) (bitp 15))))
  r ← ioread8 (uart_reg dev 0x04)
  iowrite8 (uart_reg dev 0x04) (bit_or r 0x1)
  iowrite8 (uart_reg dev aux_mu_cntl) 0
  iowrite8 (uart_reg dev 0x44) 0
  iowrite8 (uart_reg dev 0x50) 0
  iowrite8 (uart_reg dev 0x4C) 0x3
  iowrite16 (uart_reg dev 0x68) 270
  gpio_set_fn 14 4 ctrl
  gpio_set_fn 15 4 ctrl
  writing (iowrite32 (gpio_reg ctrl.base 0x94) 0)
  r ← reading (ioread32 (gpio_reg ctrl.base 0x98))
  writing (iowrite32 (gpio_reg ctrl.base 0x98) (bit_or r (bit_or (bitp 14) (bitp 15))))
  writing (iowrite32 (gpio_reg ctrl.base 0x98) 0)
  iowrite8 (uart_reg dev aux_mu_cntl) 0x3

-- `RPI_5_UART0_BASE` and `AUX_IO_BASE`. The field `priv` is not modelled: nothing reads it.
unfoldable pub uart_init : Cmd Uart (Unit {0})
uart_init = modify (λ s.
    if s.rpi_version == 5
    then record s {
      uart_dev = record s.uart_dev {
        driver = pl011;
        base = remapped ((0x30000 + va_to_pa s.mmio_base) % 2 ^ 64);
      };
    }
    else record s {
      uart_dev = record {
        driver = mini_uart;
        quirks = true;
        base = remapped ((0x215000 + va_to_pa s.mmio_base) % 2 ^ 64);
      };
    })

-- `console` is always `uart_dev`, whose `init` is `uart_init`.
unfoldable pub init_console : GpioController → Cmd Uart (Unit {0})
init_console priv = do
  modify (λ s. record s { console = true })
  uart_init
  dev ← gets Uart.uart_dev
  if dev.quirks then mini_uart_init priv else pure tt

-- `setup_console` of kernel.c, before the first message; `ctrl` is what the stack holds.
unfoldable pub setup_console : GpioController → Cmd Uart (Unit {0})
setup_console ctrl = do ctrl ← init_gpio ctrl; init_console ctrl

module _ (fuel : ℕ) where
  unfoldable pub puts_of : Driver → List ℕ → Cmd Uart (Unit {0})
  puts_of unset s = λ _. fault
  puts_of mini_uart s = mini_uart_puts fuel s
  puts_of pl011 s = uart_puts fuel s

  unfoldable pub putc_of : Driver → ℕ → Cmd Uart (Unit {0})
  putc_of unset c = λ _. fault
  putc_of mini_uart c = mini_uart_putc fuel c
  putc_of pl011 c = uart_putc fuel c

  unfoldable pub getc_of : Driver → Cmd Uart ℕ
  getc_of unset = λ _. fault
  getc_of mini_uart = mini_uart_getc
  getc_of pl011 = uart_getc fuel

  unfoldable pub puts : List ℕ → Cmd Uart (Unit {0})
  puts s = do
    console ← gets Uart.console
    dev ← gets Uart.uart_dev
    if console then puts_of dev.driver s else pure tt

  unfoldable pub putc : ℕ → Cmd Uart (Unit {0})
  putc c = do
    console ← gets Uart.console
    dev ← gets Uart.uart_dev
    if console then putc_of dev.driver c else pure tt

  -- There is no test of the pointer here.
  unfoldable pub getc : Cmd Uart ℕ
  getc = do
    console ← gets Uart.console
    dev ← gets Uart.uart_dev
    if console then getc_of dev.driver else (λ _. fault)
