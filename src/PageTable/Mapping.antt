-- ===== src/PageTable/Mapping.antt =====
-- `map_pa_to_va_pg` and `va_set_attr` on tables that exist, and the first mapping below an empty
-- entry.
use hob_os.Base.{ℕ, ◌+◌, ◌*◌, ◌%◌, ◌^◌, ◌<◌, ◌≡◌, ◌≢◌, refl, false, ne→==, arith}
use hob_os.Base.Run.{Ends, ends}
use hob_os.Task.{Ptr}
use hob_os.PageTable.{Paging, pt_entry}
use hob_os.PageTable.Access.{put_entry}
use hob_os.PageTable.Level.{Link}
use hob_os.PageTable.Map.{
  index_1, index_2, index_3, flags_or_kernel, Maps, Walks, Link-Step, map-Walks, after_walk-Maps,
}
use hob_os.PageTable.Mmu.{IsBase, IsPage, IsFlags}
use hob_os.PageTable.Walk.{map_pa_to_va_pg}

-- The tables of the three levels for `va` stand, on distinct pages: `top`, `d2` and `d3` describe
-- the pages number `m1`, `m2` and `m3`.
pub record Route (k base : ℕ) (s : Paging) (top va d2 d3 m1 m2 m3 : ℕ) : Type 0 where
  pub level : (s.desc top).level ≡ 1
  pub first : Link k s top (index_1 va) m2 d2
  pub second : Link k s d2 (index_2 va) m3 d3
  pub is_base : IsBase base
  pub page1 : IsPage base m1 (s.desc top).pt
  pub page2 : IsPage base m2 (s.desc d2).pt
  pub page3 : IsPage base m3 (s.desc d3).pt
  pub m12 : m1 ≢ m2
  pub m13 : m1 ≢ m3
  pub m23 : m2 ≢ m3

Link-put :
    {k : ℕ} {s : Paging} {d i m c : ℕ} (p j e : ℕ)
    → (s.desc d).pt + 8 * i ≢ p + 8 * j
    → Link k s d i m c
    → Link k (put_entry s p j e) d i m c
Link-put {k} {s} {d} {i} p j e ne l = record {
  d_ne = l.d_ne;
  pt_ne = l.pt_ne;
  in_range = l.in_range;
  points = rw (ne→== ((s.desc d).pt + 8 * i) (p + 8 * j) ne) l.points;
  kid = record {
    before = l.kid.before;
    behind = l.kid.behind;
    chain = l.kid.chain;
    others = l.kid.others;
    this = l.kid.this;
    enough = l.kid.enough;
  };
  deeper = l.deeper;
}

module _ (k base : ℕ) {s : Paging} {top va d2 d3 m1 m2 m3 : ℕ}
    (h : Route k base s top va d2 d3 m1 m2 m3) where
  -- The entry of the last level does not stand in the other tables.
  pub Route-put :
      (e : ℕ) → Route k base (put_entry s (s.desc d3).pt (index_3 va) e) top va d2 d3 m1 m2 m3
  Route-put e = record {
    level = h.level;
    first =
        Link-put (s.desc d3).pt (index_3 va) e (omega (arith, h.page1.0, h.page3.0, h.m13)) h.first;
    second =
        Link-put (s.desc d3).pt (index_3 va) e (omega (arith, h.page2.0, h.page3.0, h.m23))
          h.second;
    is_base = h.is_base;
    page1 = h.page1;
    page2 = h.page2;
    page3 = h.page3;
    m12 = h.m12;
    m13 = h.m13;
    m23 = h.m23;
  }

  pub Route-Walks :
      (core : ℕ) (idle_task : Ptr) (f : ℕ)
      → Walks core k idle_task base s s s top va d2 d3 m1 m2 m3 (s.desc d2).pt (s.desc d3).pt f
  Route-Walks core idle_task f = record {
    one = Link-Step core k idle_task f h.first;
    two = Link-Step core k idle_task f h.second;
    level = h.level;
    top_ne = h.first.d_ne;
    is_base = h.is_base;
    page1 = h.page1;
    page2 = h.page2;
    page3 = h.page3;
    m12 = h.m12;
    m13 = h.m13;
    m23 = h.m23;
    top_same = refl;
  }

module _ (core k : ℕ) (idle_task : Ptr) (base : ℕ) where
  -- The tables for the page address `va` stand, and the page number `m` is below 2 ^ 39 bytes, and
  -- the attributes are those of a valid entry and have no bit of an address. Then
  -- `map_pa_to_va_pg` ends and returns `va`; it has written the one entry of the last level, the
  -- processor translates every address of the page to the page number `m`, and the tables stand.
  pub map-Route :
      {s : Paging} {top va d2 d3 m1 m2 m3 : ℕ} (m flags : ℕ)
      → Route k base s top va d2 d3 m1 m2 m3
      → va % 4096 ≡ 0
      → m < 2 ^ 27
      → IsFlags (flags_or_kernel flags)
      → Ends
          (λ r v.
            (r ≡ va)
            × (v
                ≡ put_entry s
                    (s.desc d3).pt
                    (index_3 va)
                    (pt_entry (4096 * m) (flags_or_kernel flags)))
            × Maps base v top va (4096 * m)
            × Route k base v top va d2 d3 m1 m2 m3)
          (map_pa_to_va_pg core k idle_task (4096 * m) va top flags false s)
  map-Route {s} {top} {va} {d2} {d3} {m1} {m2} {m3} m flags h aligned small ok_flags =
      let f = flags_or_kernel flags in
      let w = Route-Walks k base h core idle_task f in
      rw (map-Walks core k idle_task m flags w aligned small) (
        ends (
          refl,
          refl,
          after_walk-Maps core k idle_task base s s s top va d2 d3 m1 m2 m3 (s.desc d2).pt
              (s.desc d3).pt m f w ok_flags small,
          Route-put k base h (pt_entry (4096 * m) f),
        ))
