-- ===== src/Mmu/Switch.antt =====
-- `switch_vmem` and `init_mmu`.
use Prim.Native.Nat.{bit_or}
use hob_os.Base.{
  ℕ, ◌+◌, ◌-◌, ◌*◌, ◌/◌, ◌%◌, ◌^◌, ◌<◌, ◌≤◌, ◌≡◌, ◌≢◌, refl, ltb-le, lt→ltb, ne→==, ==→eq, ==→ne,
  ◌==◌, Bool-cases, inl, inr, ltb, if◌then◌else◌, arith,
}
use hob_os.Base.Bits.{bit_or-shift, bit_or-mask, bit_or-zero}
use hob_os.Base.Run.{ok, fault, Ends, ends}
use hob_os.Task.{Ptr, null}
use hob_os.PageTable.{Paging, PageTableDesc, kernel_start, load_desc}
use hob_os.PageTable.Mmu.{translate}
use hob_os.PageTable.Access.{put, load_desc-ok, store_desc-ok}
use hob_os.PageTable.Walk.{create_pt_desc, clear_descs, zero_desc}
use hob_os.Slub.{Slab}
use hob_os.Mm.{kmalloc}
use hob_os.Mmu.{
  Machine, mmu_tsz, switch_vmem, set_ttbr1_el1, init_mmu, extract_global_pt_info, extract_loop,
  extract_pt_addr,
}

-- The translation reads the 39 low bits of an address.
pub translate-low :
    (mem : ℕ → ℕ) (root a b : ℕ)
    → a % 2 ^ 39 ≡ b % 2 ^ 39
    → translate mem root a ≡ translate mem root b
unfolding translate
translate-low mem root a b h =
    let i1 : a / 2 ^ 30 % 2 ^ 9 ≡ b / 2 ^ 30 % 2 ^ 9 = omega arith in
    let i2 : a / 2 ^ 21 % 2 ^ 9 ≡ b / 2 ^ 21 % 2 ^ 9 = omega arith in
    let i3 : a / 2 ^ 12 % 2 ^ 9 ≡ b / 2 ^ 12 % 2 ^ 9 = omega arith in
    let o : a % 2 ^ 12 ≡ b % 2 ^ 12 = omega arith in rw (i1, i2, i3, o) refl

-- The fields that `switch_vmem` adds to the register
abbrev switched_tcr : ℕ → ℕ
switched_tcr tcr = bit_or (bit_or (bit_or tcr (2 * 2 ^ 30)) (mmu_tsz * 2 ^ 16)) (0 * 2 ^ 23)

switched_tcr-fields :
    (tcr : ℕ)
    → tcr < 2 ^ 16
    → (switched_tcr tcr / 2 ^ 16 ≡ 0x8019) × (switched_tcr tcr % 2 ^ 16 ≡ tcr)
switched_tcr-fields tcr h =
    let high : tcr / 2 ^ 16 ≡ 0 = omega arith in
    let low : tcr % 2 ^ 16 ≡ tcr = omega arith in
    let a = bit_or tcr (2 * 2 ^ 30) in
    let b = bit_or a (mmu_tsz * 2 ^ 16) in
    (
      rw
          (
            bit_or-zero b,
            bit_or-shift 16 a (mmu_tsz * 2 ^ 16),
            bit_or-shift 16 tcr (2 * 2 ^ 30),
            high,
          )
          refl,
      rw
          (
            bit_or-zero b,
            bit_or-mask 16 a (mmu_tsz * 2 ^ 16),
            bit_or-mask 16 tcr (2 * 2 ^ 30),
            low,
            bit_or-zero tcr,
          )
          (bit_or-zero tcr),
    )

-- `TCR_EL1` has only fields of the low half, as boot.S sets them, and the table of the low half
-- stands below the kernel's addresses. Then `switch_vmem` ends, and
-- the processor translates the high alias of every address below 2 ^ 39 as it translates that
-- address with the table of the low half; the high half has pages of 4 KB and 39 bits, and the low
-- half's fields are kept; the stack pointer, the return address and the vectors below 2 ^ 39 are the
-- high aliases of what they were.
pub switch_vmem-translate :
    (s : Machine)
    → s.tcr_el1 < 2 ^ 16
    → s.ttbr0_el1 ≤ kernel_start
    → Ends
        (λ _ v.
          ((mem : ℕ → ℕ) (a : ℕ)
            → a < 2 ^ 39
            → translate mem v.ttbr1_el1 (a + kernel_start) ≡ translate mem s.ttbr0_el1 a)
          × (v.tcr_el1 / 2 ^ 16 % 2 ^ 6 ≡ 64 - 39)
          × (v.tcr_el1 / 2 ^ 30 % 2 ^ 2 ≡ 2)
          × (v.tcr_el1 % 2 ^ 16 ≡ s.tcr_el1)
          × (s.sp < 2 ^ 39 → v.sp ≡ s.sp + kernel_start)
          × (s.lr < 2 ^ 39 → v.lr ≡ s.lr + kernel_start)
          × (s.vbar_el1 < 2 ^ 39 → v.vbar_el1 ≡ s.vbar_el1 + kernel_start)
          × (v.paging ≡ s.paging))
        (switch_vmem s)
unfolding switch_vmem set_ttbr1_el1
switch_vmem-translate s h l =
    let fields = switched_tcr-fields s.tcr_el1 h in
    let t = switched_tcr s.tcr_el1 in
    let f1 : t / 2 ^ 16 % 2 ^ 6 ≡ 25 = rw fields.0 refl in
    let f2 : t / 2 ^ 30 % 2 ^ 2 ≡ 2 = omega (arith, fields.0) in
    rw (ltb-le kernel_start s.ttbr0_el1 l) (
      ends (
        λ mem a small. translate-low mem s.ttbr0_el1 (a + kernel_start) a (omega arith),
        f1,
        f2,
        fields.1,
        λ small. omega arith,
        λ small. omega arith,
        λ small. omega arith,
        refl,
      ))

load_null : (s : Paging) → load_desc null s ≡ fault
unfolding load_desc
load_null s = refl

-- With an array of descriptors, the first round writes the child of a parent that is NULL.
init_mmu-array :
    (fuel : ℕ) (idle_task : Ptr) (s : Machine)
    → s.paging.global_page_tables ≢ null
    → s.paging.pt_ctr < 128
    → init_mmu 0 fuel idle_task s ≡ fault
unfolding init_mmu extract_global_pt_info extract_loop extract_pt_addr create_pt_desc
init_mmu-array fuel idle_task s ne room =
    let q = s.paging in
    let p = q.global_page_tables + 32 * q.pt_ctr in
    let pn : p ≢ null = omega (arith, ne) in
    let counted : Paging = record q { pt_ctr = (q.pt_ctr + 1) % 2 ^ 8 } in
    let blank : PageTableDesc = record (q.desc p) {
      level = 1 % 2 ^ 8;
      pt_len = 0;
      next = null;
      child_pt_desc = null;
    } in
    let made : Paging = put counted p blank in
    let filled : PageTableDesc = record (made.desc p) { pt = s.ttbr1_el1; pt_len = 1 } in
    rw
      (
        ne→== q.global_page_tables null ne,
        lt→ltb q.pt_ctr 128 room,
        load_desc-ok counted p pn,
        store_desc-ok counted p blank pn,
        load_desc-ok made p pn,
        store_desc-ok made p filled pn,
        ne→== p null pn,
        load_null (put made p filled),
      )
      refl

-- What `create_pt_desc` makes of the page that `kmalloc` gives for the array
with_array : Paging → Ptr → Slab → Paging
with_array s p h = record s {
  heap = h;
  global_page_tables = p;
  desc = λ a. if ltb a p then s.desc a else (if ltb a (p + 0x1000) then zero_desc else s.desc a);
}

create_pt_desc-array :
    (fuel : ℕ) (idle_task : Ptr) (s : Paging) (p : Ptr) (h : Slab) (level : ℕ)
    → s.global_page_tables ≡ null
    → kmalloc 0 fuel idle_task 0x1000 s.heap ≡ ok p h
    → p ≢ null
    → create_pt_desc 0 fuel idle_task level s
      ≡ create_pt_desc 0 fuel idle_task level (with_array s p h)
unfolding create_pt_desc clear_descs with_array
create_pt_desc-array fuel idle_task s p h level none given ne =
    rw (none, given, ne→== p null ne) refl

create_pt_desc-no_page :
    (fuel : ℕ) (idle_task : Ptr) (s : Paging) (h : Slab) (level : ℕ)
    → s.global_page_tables ≡ null
    → kmalloc 0 fuel idle_task 0x1000 s.heap ≡ ok null h
    → create_pt_desc 0 fuel idle_task level s ≡ fault
unfolding create_pt_desc clear_descs
create_pt_desc-no_page fuel idle_task s h level none given = rw (none, given) refl

-- The first core comes to `init_mmu` with no array of descriptors, fewer than 128 descriptors, and
-- a `kmalloc` that gives a page or NULL for the array. Then `init_mmu` faults: without the page it
-- clears the array through NULL, and with it the first round of `extract_global_pt_info` writes the
-- child of a parent that is NULL.
pub init_mmu-null :
    (fuel : ℕ) (idle_task : Ptr) (s : Machine) (p : Ptr) (h : Slab)
    → s.paging.global_page_tables ≡ null
    → s.paging.pt_ctr < 128
    → kmalloc 0 fuel idle_task 0x1000 s.paging.heap ≡ ok p h
    → init_mmu 0 fuel idle_task s ≡ fault
unfolding init_mmu extract_global_pt_info extract_loop with_array
init_mmu-null fuel idle_task s p h none room given = elim (Bool-cases (p == null)) [
  | inl q ↦
      let e : p ≡ null = ==→eq p null q in
      rw (create_pt_desc-no_page fuel idle_task s.paging h 1 none (rw e at given)) refl
  | inr q ↦
      let ne : p ≢ null = ==→ne p null q in
      rw (create_pt_desc-array fuel idle_task s.paging p h 1 none given ne)
        (init_mmu-array fuel idle_task (record s { paging = with_array s.paging p h }) ne room)
]
