-- ===== src/PageTable.antt =====
-- pt.c and include/hobos/lib/pt_lib.h: page tables of three levels, and a descriptor for each.
-- The state has the descriptors and the 64-bit words of the tables by address, and the heap that
-- `kmalloc` works on. A table has 512 entries of 8 bytes; `global_page_tables` points to a page,
-- with room for 128 descriptors of 32 bytes. The code tests neither bound; an access outside
-- faults. Barriers and the invalidation of the TLB are not modelled.
pub mod Access
pub mod Attr
pub mod Entries
pub mod Fresh
pub mod Level
pub mod Map
pub mod Mapping
pub mod Mmu
pub mod Sample
pub mod Walk
mod Tests
use Prim.Native.Nat.{bit_or}
use hob_os.Base.{
  ℕ, zero, suc, ◌+◌, ◌-◌, ◌*◌, ◌/◌, ◌%◌, ◌^◌, Bool, true, false, ◌||◌, ltb, ◌==◌, if◌then◌else◌,
  update,
}
use hob_os.Base.Int.{ℤ, pos, negsuc}
use hob_os.Base.Run.{Run, Cmd, ok, fault, out_of_fuel, pure, gets, modify, ◌>>=◌, ◌>>◌}
use hob_os.Slub.{Slab}
use hob_os.Mm.{kmalloc}
use hob_os.Task.{Ptr, null}

-- Positions and values of the attributes
abbrev pub pt_page : ℕ
pt_page = 3

abbrev pub pt_lvl_max : ℕ
pt_lvl_max = 3

abbrev pub kb : ℕ → ℕ
kb x = x * 2 ^ 10

-- `PT_PAGE | PT_AP_RW | PT_AF_ACCESSED | PT_UXN_NX | PT_SH_I | PT_INDEX_MEM`: distinct bits
abbrev pub pte_flags_kernel_generic : ℕ
pte_flags_kernel_generic = pt_page + 2 ^ 10 + 2 ^ 54 + 3 * 2 ^ 8 + 2 ^ 2

-- With `PT_PXN_NX` in place of `PT_UXN_NX`
abbrev pub pte_flags_user_generic : ℕ
pte_flags_user_generic = pt_page + 2 ^ 10 + 2 ^ 53 + 3 * 2 ^ 8 + 2 ^ 2

-- `PT_PAGE | PT_AF_ACCESSED | PT_UXN_NX | PT_SH_O | PT_INDEX_NC`
abbrev pub pte_flags_nc : ℕ
pte_flags_nc = pt_page + 2 ^ 10 + 2 ^ 54 + 2 * 2 ^ 8

-- The bits from 39 on
abbrev pub kernel_start : ℕ
kernel_start = 2 ^ 64 - 2 ^ 39

pub record PageTableDesc : Type 0 where
  pub level : ℕ
  pub pt_len : ℕ
  pub pt : Ptr
  pub next : Ptr
  pub child_pt_desc : Ptr

pub record VaMetadata : Type 0 where
  pub index : ℕ → ℕ
  pub offset : ℕ

pub record Paging : Type 0 where
  pub desc : Ptr → PageTableDesc
  pub word : ℕ → ℕ
  pub global_page_tables : Ptr
  pub pt_ctr : ℕ
  pub heap : Slab

-- `addr & ~KERNEL_START`
abbrev pub va_to_pa : ℕ → ℕ
va_to_pa addr = addr % 2 ^ 39

unfoldable pub pa_to_va : ℕ → ℕ
pa_to_va addr = bit_or kernel_start addr

unfoldable pub get_kernel_va : ℕ → ℕ
get_kernel_va pa = bit_or pa kernel_start

unfoldable pub pt_entry : ℕ → ℕ → ℕ
pt_entry paddr flags =
    let san_paddr : ℕ = if ltb kernel_start paddr then paddr - kernel_start else paddr in
    bit_or san_paddr flags

unfoldable pub extract_va_metadata : ℕ → VaMetadata
extract_va_metadata va = record {
  offset = va % 2 ^ 12;
  index = λ i.
      if i == 0
      then va / 2 ^ 30 % 2 ^ 9
      else (if i == 1 then va / 2 ^ 21 % 2 ^ 9 else va / 2 ^ 12 % 2 ^ 9);
}

abbrev pub pte_is_empty : ℕ → Bool
pte_is_empty pte = pte == 0

-- `pte & ~(0xF0000000000FFF)`: the bits 12 to 51 and those from 56 on
abbrev pub addr_bits : ℕ → ℕ
addr_bits pte = pte / 2 ^ 56 * 2 ^ 56 + pte / 2 ^ 12 % 2 ^ 40 * 2 ^ 12

unfoldable pub extract_addr_from_pte : ℕ → ℕ
extract_addr_from_pte pte =
    let addr : ℕ = addr_bits pte in
    if ltb addr 0xFFFFFFFF then addr else kernel_start + addr % 2 ^ 32

unfoldable pub load_desc : Ptr → Cmd Paging PageTableDesc
load_desc d s = if d == null then fault else ok (s.desc d) s

unfoldable pub store_desc : Ptr → PageTableDesc → Cmd Paging (Unit {0})
store_desc d v s = if d == null then fault else ok tt (record s { desc = update s.desc d v })

-- `pt[index]`
unfoldable pub load_entry : Ptr → ℕ → Cmd Paging ℕ
load_entry pt index s =
    if pt == null then fault else (if ltb index 512 then ok (s.word (pt + 8 * index)) s else fault)

-- `pt[index] = pte`
unfoldable pub store_entry : Ptr → ℕ → ℕ → Cmd Paging (Unit {0})
store_entry pt index pte s =
    if pt == null
    then fault
    else (if ltb index 512
        then ok tt (record s { word = update s.word (pt + 8 * index) pte })
        else fault)

module _ {A : Type 0} where
  abbrev with_heap : Paging → Run Slab A → Run Paging A
  with_heap s (ok a t) = ok a (record s { heap = t })
  with_heap s fault = fault
  with_heap s out_of_fuel = out_of_fuel

  -- Code of the allocators
  abbrev pub on_heap : Cmd Slab A → Cmd Paging A
  on_heap m s = with_heap s (m s.heap)

-- `pt_len` is a `u16`.
unfoldable pub place_pt_entry : Ptr → ℕ → ℤ → Cmd Paging (Unit {0})
place_pt_entry pt_desc pte (pos index) = do
  v ← load_desc pt_desc
  store_entry v.pt index pte
  store_desc pt_desc (record v { pt_len = index % 2 ^ 16 })
place_pt_entry pt_desc pte (negsuc zero) = do
  v ← load_desc pt_desc
  store_desc pt_desc (record v { pt_len = (v.pt_len + 1) % 2 ^ 16 })
  store_entry v.pt v.pt_len pte
place_pt_entry pt_desc pte (negsuc (suc n)) = λ _. fault

-- The rounds left, and the variable `i`.
unfoldable pub create_entries_loop : ℕ → Ptr → ℕ → ℕ → Cmd Paging (Unit {0})
create_entries_loop zero pt_desc flags i = pure tt
create_entries_loop (suc n) pt_desc flags i = do
  place_pt_entry pt_desc (pt_entry i flags) (negsuc 0)
  create_entries_loop n pt_desc flags (i + kb 4)

-- `end_paddr` is at least `start_paddr`, and less than 2 ^ 64 - 4096 where there is a loop.
unfoldable pub create_pt_entries : Ptr → ℕ → ℕ → ℕ → Cmd Paging Ptr
create_pt_entries pt_desc start_paddr end_paddr flags = do
  v ← load_desc pt_desc
  let start_pte = v.pt + 8 * v.pt_len
  place_pt_entry pt_desc (pt_entry start_paddr flags) (negsuc 0)
  if ltb ((end_paddr + 2 ^ 64 - start_paddr) % 2 ^ 64) (kb 4) || (start_paddr == end_paddr)
      then pure start_pte
      else (do
        create_entries_loop ((end_paddr - start_paddr) / kb 4) pt_desc flags (start_paddr + kb 4)
        pure start_pte)
