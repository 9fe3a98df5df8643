-- ===== src/Device/Interrupts.antt =====
-- The start of the interrupts, board by board.
use hob_os.Base.{
  ◌+◌, ◌%◌, ◌^◌, ◌≡◌, refl, ap, if◌then◌else◌, false, ◌∷◌, ◌==◌, arith, Bool-cases, inl, inr,
}
use hob_os.Base.Run.{fault, ◌>>◌, Ends, ends}
use hob_os.PageTable.{va_to_pa, pa_to_va}
use hob_os.Device.{set_timer, bcm_irq_enable_interrupt, mmio_read, mmio_write, ioread32, iowrite32}
use hob_os.Device.Drivers.{
  Drivers, init_timer, init_device_drivers, bcm_irq_controller_init, init_irq_controller,
  enable_interrupts,
}

-- The callbacks of the interrupt controller are not set before. On the third board the drivers and
-- the interrupts start with two writes: the interrupt 1 is enabled, and the compare register gets
-- the counter's low word, as it was read, and 0x100 ticks more. On every other board the start
-- faults, at a call through a NULL pointer.
pub enable_interrupts-board :
    (s : Drivers)
    → s.soc_irq.functions ≡ false
    → (if s.device.rpi_version == 3
        then Ends
            (λ _ t.
              t.device.written
              ≡ (
                (s.device.mmio_base + 0x3010) % 2 ^ 64,
                (s.device.register ((s.device.mmio_base + 0x3004) % 2 ^ 64) % 2 ^ 32 + 0x100)
                    % 2 ^ 32,
              )
                ∷ (
                  (pa_to_va (va_to_pa ((s.device.mmio_base + 0xB000) % 2 ^ 64)) + 0x210) % 2 ^ 64,
                  2,
                )
                ∷ s.device.written)
            ((do init_device_drivers; enable_interrupts) s)
        else ((do init_device_drivers; enable_interrupts) s ≡ fault))
unfolding init_device_drivers enable_interrupts init_timer init_irq_controller
    bcm_irq_controller_init bcm_irq_enable_interrupt set_timer mmio_read mmio_write ioread32
    iowrite32
enable_interrupts-board s unset = elim (Bool-cases (s.device.rpi_version == 3)) [
  | inl e ↦
      let now = s.device.register ((s.device.mmio_base + 0x3004) % 2 ^ 64) % 2 ^ 32 in
      let once : (now + 0x100) % 2 ^ 32 % 2 ^ 32 ≡ (now + 0x100) % 2 ^ 32 = omega arith in
      rw (e, e)
        (ends (
          ap
            (λ v.
              ((s.device.mmio_base + 0x3010) % 2 ^ 64, v)
              ∷ ((pa_to_va (va_to_pa ((s.device.mmio_base + 0xB000) % 2 ^ 64)) + 0x210) % 2 ^ 64, 2)
              ∷ s.device.written)
            once))
  | inr e ↦ rw (e, e, unset) refl
]
