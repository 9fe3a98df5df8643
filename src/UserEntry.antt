-- ===== src/UserEntry.antt =====
-- usr_entry.c: the page table of the user's program. The state, `core`, `fuel` and `idle_task` are
-- as in Mmu.antt; `usr_entry` is the address of the symbol `__usr_entry`, which the linker gives.
-- The messages are not modelled.
use hob_os.Base.{ℕ, zero, suc, ◌+◌, ◌*◌, ◌%◌, ◌^◌, ◌==◌, ltb, false, if◌then◌else◌}
use hob_os.Base.Run.{Cmd, out_of_fuel, pure, ◌>>=◌, ◌>>◌}
use hob_os.Mm.{kmalloc}
use hob_os.Mmu.{Machine, on_paging, set_ttbr0_el1}
use hob_os.PageTable.{Paging, pte_flags_user_generic, va_to_pa, load_desc, store_desc, on_heap}
use hob_os.PageTable.Walk.{map_pa_to_va_pg}
use hob_os.Syscall.{usr_sz}
use hob_os.Task.{Ptr, null}

module _ (core fuel : ℕ) (idle_task : Ptr) where
  -- `while (start < end)`; the first argument is fuel.
  unfoldable pub id_map_loop : ℕ → ℕ → ℕ → ℕ → Ptr → Cmd Paging (Unit {0})
  id_map_loop zero start va end_addr pt_desc = λ _. out_of_fuel
  id_map_loop (suc n) start va end_addr pt_desc =
      if ltb start end_addr
      then (do
        ret ← map_pa_to_va_pg core fuel idle_task start va pt_desc pte_flags_user_generic false
        if ret == va
            then id_map_loop n ((start + 0x1000) % 2 ^ 64) ((va + 0x1000) % 2 ^ 64) end_addr pt_desc
            else pure tt)
      else pure tt

  unfoldable pub id_map_to_usr : ℕ → ℕ → Ptr → Cmd Paging (Unit {0})
  id_map_to_usr start end_addr pt_desc = id_map_loop fuel start start end_addr pt_desc

  -- The size of a `struct page_table_desc` is 32. The fields that are not set keep what the memory holds.
  unfoldable pub usr_init : ℕ → Cmd Machine (Unit {0})
  usr_init usr_entry = do
    usr_pt_desc ← on_paging (on_heap (kmalloc core fuel idle_task 32))
    v ← on_paging (load_desc usr_pt_desc)
    on_paging (store_desc usr_pt_desc (record v { level = 1 }))
    usr_pt ← on_paging (on_heap (kmalloc core fuel idle_task (8 * 512)))
    v ← on_paging (load_desc usr_pt_desc)
    on_paging (store_desc usr_pt_desc (record v { pt = usr_pt }))
    on_paging (id_map_to_usr usr_entry (usr_entry + usr_sz) usr_pt_desc)
    if usr_pt == null then pure tt else set_ttbr0_el1 (va_to_pa usr_pt)

-- The address behind the user's memory
abbrev get_usr_end : ℕ → ℕ
get_usr_end usr_entry = usr_entry + usr_sz
