-- ===== src/Mmu.antt =====
-- mmu.c and include/hobos/mmu/bcm2835.h: the registers of the translation, and the switch to high
-- addresses. The state has the page tables and the registers that the code writes. `core` is what
-- `curr_core_id` returns; `fuel` and `idle_task` are as in Slub/Cache.antt. Barriers and the
-- invalidation of the TLB are not modelled.
pub mod Switch
mod Tests
use Prim.Native.Nat.{bit_or}
use hob_os.Base.{ℕ, zero, suc, ◌+◌, ◌-◌, ◌*◌, ◌/◌, ◌%◌, ◌^◌, ◌==◌, ltb, if◌then◌else◌, update}
use hob_os.Base.Run.{Run, Cmd, ok, fault, out_of_fuel, pure, gets, modify, ◌>>=◌, ◌>>◌}
use hob_os.Task.{Ptr, null}
use hob_os.PageTable.{
  Paging, PageTableDesc, kernel_start, va_to_pa, load_desc, store_desc, load_entry,
}
use hob_os.PageTable.Walk.{create_pt_desc}

pub record Machine : Type 0 where
  pub paging : Paging
  pub ttbr0_el1 : ℕ
  pub ttbr1_el1 : ℕ
  pub tcr_el1 : ℕ
  pub vbar_el1 : ℕ
  pub mair_el1 : ℕ
  pub sp : ℕ
  pub lr : ℕ

module _ {A : Type 0} where
  abbrev with_paging : Machine → Run Paging A → Run Machine A
  with_paging s (ok a t) = ok a (record s { paging = t })
  with_paging s fault = fault
  with_paging s out_of_fuel = out_of_fuel

  -- Code of the page tables
  abbrev pub on_paging : Cmd Paging A → Cmd Machine A
  on_paging m s = with_paging s (m s.paging)

-- `(msb_2 << 2) | (r < 1) | w`
abbrev mair_mem_rw : ℕ → ℕ → ℕ → ℕ
mair_mem_rw msb_2 r w = bit_or (bit_or (msb_2 * 4) (if ltb r 1 then 1 else 0)) w

abbrev mair_dev : ℕ → ℕ → ℕ → ℕ
mair_dev g r e = (g + r + e) * 4

-- `struct mair_attr`: `outer_cache` has the low bits of the byte.
abbrev mair_attr : ℕ → ℕ → ℕ
mair_attr outer_cache inner_cache = outer_cache % 16 + inner_cache % 16 * 16

-- The variable `mair_el1`, as a word; `attr3` is not given and is 0.
abbrev pub mair_value : ℕ
mair_value =
    mair_attr (mair_mem_rw 3 1 1) (mair_mem_rw 3 1 1)
    + mair_attr (mair_dev 0 0 1 / 16) (mair_dev 0 0 1) * 2 ^ 8
    + mair_attr (mair_dev 0 0 0 / 16) (mair_dev 0 0 0) * 2 ^ 16

abbrev pub mmu_tsz : ℕ
mmu_tsz = 25

unfoldable pub get_kernel_translation_table : Cmd Machine ℕ
get_kernel_translation_table = do
  tables ← gets (λ s. s.paging.global_page_tables)
  let pt_desc = va_to_pa tables
  if pt_desc == null then pure 0 else do v ← on_paging (load_desc pt_desc); pure v.pt

abbrev get_ttbr0_el1 : Cmd Machine ℕ
get_ttbr0_el1 = gets Machine.ttbr0_el1

abbrev get_ttbr1_el1 : Cmd Machine ℕ
get_ttbr1_el1 = gets Machine.ttbr1_el1

unfoldable pub set_ttbr1_el1 : ℕ → Cmd Machine (Unit {0})
set_ttbr1_el1 x =
    modify (λ s. record s { ttbr1_el1 = if ltb kernel_start x then x - kernel_start else x })

unfoldable pub set_ttbr0_el1 : ℕ → Cmd Machine (Unit {0})
set_ttbr0_el1 x = modify (λ s. record s { ttbr0_el1 = x })

-- Sums of 64 bits
abbrev pub to_high : ℕ → ℕ
to_high reg = (reg + kernel_start) % 2 ^ 64

unfoldable pub switch_vmem : Cmd Machine (Unit {0})
switch_vmem = do
  table ← get_ttbr0_el1
  set_ttbr1_el1 table
  tcr ← gets Machine.tcr_el1
  let tcr = bit_or (bit_or (bit_or tcr (2 * 2 ^ 30)) (mmu_tsz * 2 ^ 16)) (0 * 2 ^ 23)
  modify (λ s. record s { tcr_el1 = tcr })
  modify (λ s. record s { sp = to_high s.sp })
  modify (λ s. record s { lr = to_high s.lr })
  modify (λ s. record s { vbar_el1 = to_high s.vbar_el1 })

-- `level` is 1 to 3. The descriptors of the array are 32 bytes apart.
unfoldable pub extract_pt_addr : ℕ → Cmd Machine Ptr
extract_pt_addr level =
    if ltb 1 level
    then (do
      tables ← gets (λ s. s.paging.global_page_tables)
      v ← on_paging (load_desc (if tables == null then null else tables + 32 * (level - 2)))
      e ← on_paging (load_entry v.pt 0)
      pure (e / 2 ^ 12 % 2 ^ 20 * 2 ^ 12))
    else get_ttbr1_el1

module _ (core fuel : ℕ) (idle_task : Ptr) where
  -- The rounds left, the variable `i`, and `pt_desc` and `parent` before the round.
  unfoldable pub extract_loop : ℕ → ℕ → Ptr → Ptr → Cmd Machine (Unit {0})
  extract_loop zero i pt_desc parent = pure tt
  extract_loop (suc n) i pt_desc parent = do
    let parent = if pt_desc == null then parent else pt_desc
    d ← on_paging (create_pt_desc core fuel idle_task i)
    pt ← extract_pt_addr i
    v ← on_paging (load_desc d)
    on_paging (store_desc d (record v { pt = pt; pt_len = if i == 3 then 512 else 1 }))
    if d == null then pure tt else do
      p ← on_paging (load_desc parent)
      on_paging (store_desc parent (record p { child_pt_desc = d }))
    extract_loop n (i + 1) d parent

  unfoldable pub extract_global_pt_info : Cmd Machine (Unit {0})
  extract_global_pt_info = extract_loop 3 1 null null

  unfoldable pub init_mmu : Cmd Machine (Unit {0})
  init_mmu = do
    if core == 0
        then extract_global_pt_info
        else (do t ← get_kernel_translation_table; set_ttbr0_el1 t)
    t ← get_kernel_translation_table
    if t == 0 then pure tt else modify (λ s. record s { mair_el1 = mair_value })
