-- ===== src/Mmu/Tests.antt =====
-- The theorems at the state behind the set-up of boot.S.
use hob_os.Base.{ℕ, ◌+◌, ◌-◌, ◌/◌, ◌%◌, ◌^◌, ◌<◌, ◌≡◌, refl, arith}
use hob_os.Base.Run.{Ends, fault}
use hob_os.Mmu.{Machine, switch_vmem, init_mmu}
use hob_os.Mmu.Switch.{switch_vmem-translate, init_mmu-null}
use hob_os.PageTable.{kernel_start}
use hob_os.PageTable.Mmu.{translate}
use hob_os.PageTable.Sample.{one_table, heap_1, heap_1_run}

abbrev booted : Machine
booted = record {
  paging = one_table;
  ttbr0_el1 = 0x1000;
  ttbr1_el1 = 0;
  tcr_el1 = 0x19;
  vbar_el1 = 0x80800;
  mair_el1 = 0x40dd;
  sp = 0x80000;
  lr = 0x80100;
}

switch_vmem-translate_example :
    Ends
      (λ _ v.
        ((mem : ℕ → ℕ) (a : ℕ)
          → a < 2 ^ 39
          → translate mem v.ttbr1_el1 (a + kernel_start) ≡ translate mem 0x1000 a)
        × (v.tcr_el1 / 2 ^ 16 % 2 ^ 6 ≡ 64 - 39)
        × (v.tcr_el1 / 2 ^ 30 % 2 ^ 2 ≡ 2)
        × (v.tcr_el1 % 2 ^ 16 ≡ 0x19)
        × (0x80000 < 2 ^ 39 → v.sp ≡ 0x80000 + kernel_start)
        × (0x80100 < 2 ^ 39 → v.lr ≡ 0x80100 + kernel_start)
        × (0x80800 < 2 ^ 39 → v.vbar_el1 ≡ 0x80800 + kernel_start)
        × (v.paging ≡ one_table))
      (switch_vmem booted)
switch_vmem-translate_example = switch_vmem-translate booted (omega arith) (omega arith)

-- The first core has no array of descriptors yet.
abbrev first_core : Machine
first_core = record booted { paging = record one_table { global_page_tables = 0; pt_ctr = 0 } }

init_mmu-null_example : init_mmu 0 5 9 first_core ≡ fault
init_mmu-null_example = init_mmu-null 5 9 first_core 0x4000 heap_1 refl (omega arith) heap_1_run
