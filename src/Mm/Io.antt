-- ===== src/Mm/Io.antt =====
-- mm.c: `ioremap`. `kernel_panic` of kernel.c, which does not return, stands as a run that does not end.
use hob_os.Base.{ℕ, ◌==◌, false, if◌then◌else◌}
use hob_os.Base.Run.{Cmd, out_of_fuel, pure, gets, ◌>>=◌, ◌>>◌}
use hob_os.PageTable.{Paging, pte_flags_nc, va_to_pa, pa_to_va}
use hob_os.PageTable.Walk.{map_pa_to_va_pg}
use hob_os.Task.{Ptr, null}

module _ (core fuel : ℕ) (idle_task : Ptr) where
  unfoldable pub ioremap : ℕ → Cmd Paging Ptr
  ioremap addr = do
    let paddr = va_to_pa addr
    top ← gets Paging.global_page_tables
    vaddr ← map_pa_to_va_pg core fuel idle_task paddr paddr top pte_flags_nc false
    if vaddr == null then (λ _. out_of_fuel) else pure tt
    pure (pa_to_va vaddr)
