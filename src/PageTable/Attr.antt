-- ===== src/PageTable/Attr.antt =====
-- `va_set_attr`, and what tables that stand make of the translation.
use hob_os.Base.{
  ℕ, zero, suc, ◌+◌, ◌*◌, ◌/◌, ◌%◌, ◌^◌, ◌<◌, ◌≡◌, ◌≢◌, refl, true, eq→==, ne→==, arith, ==→eq,
}
use Prim.Native.Nat.{bit_or}
use hob_os.Base.Bits.{bit_or-shift, bit_or-mask, bit_or-zero}
use hob_os.Base.Run.{Ends, ends}
use hob_os.Task.{Ptr, null}
use hob_os.PageTable.{Paging}
use hob_os.PageTable.Access.{put_entry}
use hob_os.PageTable.Map.{index_3, flags_or_kernel, Maps, translate-entries, walk-Walks}
use hob_os.PageTable.Mapping.{Route, Route-put, Route-Walks}
use hob_os.PageTable.Mmu.{is_valid, output_address, va_to_pa-IsPage}
use hob_os.PageTable.Walk.{va_set_attr, load_pte, store_pte}

-- The entry of the last level for `va`, in the table of `d3`
abbrev pub leaf : Paging → Ptr → ℕ → ℕ
leaf s d3 va = s.word ((s.desc d3).pt + 8 * index_3 va)

pub Route-Maps :
    (k base : ℕ) {s : Paging} {top va d2 d3 m1 m2 m3 : ℕ} (pa : ℕ)
    → Route k base s top va d2 d3 m1 m2 m3
    → is_valid (leaf s d3 va) ≡ true
    → output_address (leaf s d3 va) ≡ pa
    → Maps base s top va pa
Route-Maps k base {s} {top} {va} {d2} {d3} {m1} {m2} {m3} pa h v o a same =
    rw (va_to_pa-IsPage base m1 (s.desc top).pt h.is_base h.page1) (
      translate-entries s.word base m1 m2 m3 va pa (rw (← h.page1.0) h.first.points)
        (rw (← h.page2.0) h.second.points) (rw (← h.page3.0) v) (rw (← h.page3.0) o) a same)

or_three : (r : ℕ) → r < 4 → bit_or 3 r ≡ 3
or_three zero h = refl
or_three (suc zero) h = refl
or_three (suc (suc zero)) h = refl
or_three (suc (suc (suc zero))) h = refl
or_three (suc (suc (suc (suc r)))) h = absurd (omega arith)

module _ (e attr : ℕ) where
  is_valid-bit_or : is_valid e ≡ true → is_valid (bit_or e attr) ≡ true
  is_valid-bit_or v =
      let r : e % 2 ^ 2 ≡ 3 = ==→eq (e % 4) 3 v in
      let low : bit_or e attr % 4 ≡ 3 =
        rw (bit_or-mask 2 e attr, r) (or_three (attr % 4) (omega arith)) in
      eq→== (bit_or e attr % 4) 3 low

  output_address-bit_or :
      attr / 2 ^ 12 % 2 ^ 36 ≡ 0 → output_address (bit_or e attr) ≡ output_address e
  output_address-bit_or z =
      rw
        (
          bit_or-shift 12 e attr,
          bit_or-mask 36 (e / 2 ^ 12) (attr / 2 ^ 12),
          z,
          bit_or-zero (e / 2 ^ 12 % 2 ^ 36),
        )
        refl

module _ (core k : ℕ) (idle_task : Ptr) (base : ℕ) where
  -- The tables for `va` stand, with a valid entry of the last level, and the attribute has none of
  -- the address bits 12 to 47. Then `va_set_attr` ends; it has set the bits of the attribute in that
  -- entry and changed nothing else, so the processor translates the page as before.
  pub va_set_attr-Maps :
      {s : Paging} {top va d2 d3 m1 m2 m3 : ℕ} (attr : ℕ)
      → Route k base s top va d2 d3 m1 m2 m3
      → is_valid (leaf s d3 va) ≡ true
      → attr / 2 ^ 12 % 2 ^ 36 ≡ 0
      → Ends
          (λ _ v.
            (v ≡ put_entry s (s.desc d3).pt (index_3 va) (bit_or (leaf s d3 va) attr))
            × Maps base v top va (output_address (leaf s d3 va))
            × Route k base v top va d2 d3 m1 m2 m3)
          (va_set_attr core k idle_task va top attr s)
  unfolding va_set_attr load_pte store_pte
  va_set_attr-Maps {s} {top} {va} {d2} {d3} {m1} {m2} {m3} attr h valid z =
      let e = leaf s d3 va in
      let here = (s.desc d3).pt + 8 * index_3 va in
      let there : here ≢ null = omega (arith, h.page3.0, h.page3.1) in
      let v : Paging = put_entry s (s.desc d3).pt (index_3 va) (bit_or e attr) in
      let stands = Route-put k base h (bit_or e attr) in
      let now : leaf v d3 va ≡ bit_or e attr = rw (eq→== here here refl) in
      rw
        (
          walk-Walks core k idle_task 0 0 (Route-Walks k base h core idle_task (flags_or_kernel 0))
              0,
          ne→== here null there,
          ne→== here null there,
        )
        (ends {s = v} (
          refl,
          Route-Maps k base (output_address e) stands (rw now (is_valid-bit_or e attr valid))
              (rw now (output_address-bit_or e attr z)),
          stands,
        ))
