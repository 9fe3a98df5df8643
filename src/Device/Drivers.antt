-- ===== src/Device/Drivers.antt =====
-- `init_timer` and `read_timer` of timer.c, `bcm_irq_controller_init` of irq_bcm.c,
-- irq_controller.c, and `init_device_drivers` and `enable_interrupts` of kernel.c: the callbacks of
-- the timer and of the interrupt controller. Messages are not modelled, nor is
-- `enable_global_interrupts`, which is assembler.
use hob_os.Base.{ℕ, ◌+◌, ◌%◌, ◌^◌, Bool, true, ◌==◌, if◌then◌else◌}
use hob_os.Base.Run.{Run, Cmd, ok, fault, out_of_fuel, pure, gets, modify, ◌>>=◌, ◌>>◌}
use hob_os.PageTable.{va_to_pa, pa_to_va}
use hob_os.Device.{Device, Timer, read_timer32, set_timer, bcm_irq_enable_interrupt}

-- `functions` is true where the functions are those of timer.c or irq_bcm.c, and false where they
-- are NULL.
pub record GlobalTimer : Type 0 where
  pub base : ℕ
  pub registers : Timer
  pub functions : Bool

pub record IrqController : Type 0 where
  pub base : ℕ
  pub functions : Bool

pub record Drivers : Type 0 where
  pub device : Device
  pub global_timer : GlobalTimer
  pub soc_irq : IrqController

abbrev with_device : {A : Type 0} → Drivers → Run Device A → Run Drivers A
with_device s (ok a d) = ok a (record s { device = d })
with_device s fault = fault
with_device s out_of_fuel = out_of_fuel

abbrev pub on_device : {A : Type 0} → Cmd Device A → Cmd Drivers A
on_device m s = with_device s (m s.device)

-- The result of `ioremap` is dropped, and a driver for an unknown board is left as it is.
unfoldable pub init_timer : Cmd Drivers (Unit {0})
init_timer = modify (λ s.
    if s.device.rpi_version == 3
    then record s {
      global_timer = record {
        base = 0x3000;
        registers = record { msb = 0x3008; lsb = 0x3004 };
        functions = true;
      };
    }
    else s)

unfoldable pub read_timer : Bool → Cmd Drivers ℕ
read_timer msb = do
  t ← gets Drivers.global_timer
  if t.functions then on_device (read_timer32 msb t.registers) else (λ _. fault)

unfoldable pub bcm_irq_controller_init : Cmd Drivers (Unit {0})
bcm_irq_controller_init = modify (λ s.
    if s.device.rpi_version == 3
    then record s {
      soc_irq = record {
        base = pa_to_va (va_to_pa ((s.device.mmio_base + 0xB000) % 2 ^ 64));
        functions = true;
      };
    }
    else s)

-- `IRQ_BCM_SOC` is 0xA.
unfoldable pub init_irq_controller : ℕ → Cmd Drivers (Unit {0})
init_irq_controller type = if type == 0xA then bcm_irq_controller_init else pure tt

unfoldable pub init_device_drivers : Cmd Drivers (Unit {0})
init_device_drivers = init_timer

-- `BCM_DEFAULT_IRQ_TIMER` is 1.
unfoldable pub enable_interrupts : Cmd Drivers (Unit {0})
enable_interrupts = do
  init_irq_controller 0xA
  irq ← gets Drivers.soc_irq
  if irq.functions then on_device (bcm_irq_enable_interrupt irq.base 0x1) else (λ _. fault)
  t ← gets Drivers.global_timer
  if t.functions then on_device (set_timer t.registers 0x100) else (λ _. fault)
