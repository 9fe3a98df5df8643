-- ===== src/PageTable/Fresh.antt =====
-- The first mapping below an empty entry of the first level: two tables are made.
use hob_os.Base.{
  ℕ, ◌+◌, ◌*◌, ◌%◌, ◌^◌, ◌<◌, ◌≡◌, ◌≢◌, ◌∙◌, refl, sym, ap, subst, List, [], ◌∷◌, false, ne→==,
  arith, IsFresh,
}
use hob_os.Base.Run.{ok, Ends, ends, Ends-eq}
use hob_os.Base.Chain.{IsFresh-append}
use hob_os.Task.{Ptr, null}
use hob_os.Slub.{Slab}
use hob_os.Mm.{kmalloc}
use hob_os.PageTable.{Paging, pt_entry}
use hob_os.PageTable.Access.{put_entry}
use hob_os.PageTable.Level.{Room, Made, next_level-new, Link-after}
use hob_os.PageTable.Map.{
  index_1, index_2, index_3, flags_or_kernel, Maps, Walks, Made-Step, map-Walks, after_walk-Maps,
}
use hob_os.PageTable.Mapping.{Route, Route-put}
use hob_os.PageTable.Mmu.{IsBase, IsPage, IsFlags}
use hob_os.PageTable.Walk.{map_pa_to_va_pg, next_level}

-- `top` is a table of the first level without an entry for `va`, and its children are `cs`. The
-- next two calls of `kmalloc` give the pages number `m2` and `m3`, of which the first has no entry
-- where the walk of `va` reads; `n2` and `n3` are the next two descriptors.
pub record Fresh (core k : ℕ) (idle_task : Ptr) (base : ℕ) (s : Paging)
    (top va n2 n3 m1 m2 m3 p2 p3 : ℕ) (cs : List Ptr) (h1 h2 : Slab) : Type 0 where
  pub level : (s.desc top).level ≡ 1
  pub is_base : IsBase base
  pub page1 : IsPage base m1 (s.desc top).pt
  pub room : Room core k idle_task base s top (index_1 va) m2 p2 n2 cs h1
  pub given : kmalloc core k idle_task 0x1000 h1 ≡ ok p3 h2
  pub page3 : IsPage base m3 p3
  pub no_entry : s.word (p2 + 8 * index_2 va) ≡ 0
  pub ctr : s.pt_ctr + 1 < 128
  pub place : n3 ≡ n2 + 32
  pub new : n3 ≢ top
  pub fresh : IsFresh n3 cs
  pub m12 : m1 ≢ m2
  pub m13 : m1 ≢ m3
  pub m23 : m2 ≢ m3

module _ (core k : ℕ) (idle_task : Ptr) (base : ℕ) {s : Paging} {top va n2 n3 m1 m2 m3 p2 p3 : ℕ}
    {cs : List Ptr} {h1 h2 : Slab}
    (z : Fresh core k idle_task base s top va n2 n3 m1 m2 m3 p2 p3 cs h1 h2) (f : ℕ)
    (ok_flags : IsFlags f) where
  abbrev slot_1 : ℕ
  slot_1 = (s.desc top).pt + 8 * index_1 va

  abbrev slot_2 : ℕ
  slot_2 = p2 + 8 * index_2 va

  -- The second table has room where the first step has been made.
  second-Room :
      {e : ℕ} {t : Paging}
      → Made k s top (index_1 va) m2 p2 n2 cs h1 e t
      → Room core k idle_task base t n2 (index_2 va) m3 p3 n3 [] h2
  second-Room {e} {t} made =
      let n2_ne : n2 ≢ null = omega (arith, z.room.place, z.room.tables_ne) in
      let p2_ne : p2 ≢ null = omega (arith, z.room.page.0, z.room.page.1) in
      let lev : (t.desc n2).level ≡ 2 =
        made.link.deeper ∙ ap (λ l. l + 1) (made.levels top (λ e. z.room.new (sym e)) ∙ z.level) in
      let far : slot_2 ≢ slot_1 = omega (arith, z.page1.0, z.room.page.0, z.m12) in
      record {
        d_ne = n2_ne;
        pt_ne = rw made.table p2_ne;
        in_range = omega arith;
        empty = rw (made.table, made.word, ne→== slot_2 slot_1 far) z.no_entry;
        level = omega (arith, lev);
        page = z.page3;
        given = rw made.heap z.given;
        tables_ne = rw made.all_tables z.room.tables_ne;
        ctr = omega (arith, made.ctr, z.ctr);
        place = omega (arith, made.all_tables, made.ctr, z.place, z.room.place);
        new = omega (arith, z.place);
        fresh = tt;
        chain = made.no_kids;
        distinct = tt;
        others = tt;
        enough = omega (arith, z.room.enough);
      }

  -- Both steps of the walk, as equations
  record Steps : Type 0 where
    pub t : Paging
    pub u : Paging
    pub run_1 : next_level core k idle_task top (index_1 va) f s ≡ ok n2 t
    pub made_1 : Made k s top (index_1 va) m2 p2 n2 cs h1 (pt_entry p2 f) t
    pub run_2 : next_level core k idle_task n2 (index_2 va) f t ≡ ok n3 u
    pub made_2 : Made k t n2 (index_2 va) m3 p3 n3 [] h2 (pt_entry p3 f) u

  steps : Steps
  steps =
      let (c, t, run_1, (c_eq, made_1)) =
        Ends-eq (next_level-new core k idle_task f z.room z.is_base ok_flags) in
      let (d, u, run_2, (d_eq, made_2)) =
        Ends-eq (next_level-new core k idle_task f (second-Room made_1) z.is_base ok_flags) in
      record {
        t = t;
        u = u;
        run_1 = run_1 ∙ ap (λ a. ok a t) c_eq;
        made_1 = made_1;
        run_2 = run_2 ∙ ap (λ a. ok a u) d_eq;
        made_2 = made_2;
      }

  module _ (w : Steps) where
    level_n2 : (w.t.desc n2).level ≡ 2
    level_n2 =
        w.made_1.link.deeper
        ∙ ap (λ l. l + 1) (w.made_1.levels top (λ e. z.room.new (sym e)) ∙ z.level)

    n2_n3 : n2 ≢ n3
    n2_n3 = omega (arith, z.place)

    top_n2 : top ≢ n2
    top_n2 e = z.room.new (sym e)

    top_n3 : top ≢ n3
    top_n3 e = z.new (sym e)

    table_2 : (w.u.desc n2).pt ≡ p2
    table_2 = w.made_2.tables n2 n2_n3 ∙ w.made_1.table

    table_1 : (w.u.desc top).pt ≡ (s.desc top).pt
    table_1 = w.made_2.tables top top_n3 ∙ w.made_1.tables top top_n2

    level_1 : (w.u.desc top).level ≡ 1
    level_1 = w.made_2.levels top top_n3 ∙ w.made_1.levels top top_n2 ∙ z.level

    Steps-Walks : Walks core k idle_task base s w.t w.u top va n2 n3 m1 m2 m3 p2 p3 f
    Steps-Walks = record {
      one =
          Made-Step core k idle_task f w.run_1 top_n2 (level_n2 ∙ ap (λ l. l + 1) (sym z.level))
            w.made_1;
      two =
          Made-Step core k idle_task f w.run_2 n2_n3
            (w.made_2.link.deeper ∙ ap (λ l. l + 1) (w.made_2.levels n2 n2_n3)) w.made_2;
      level = z.level;
      top_ne = z.room.d_ne;
      is_base = z.is_base;
      page1 = z.page1;
      page2 = z.room.page;
      page3 = z.page3;
      m12 = z.m12;
      m13 = z.m13;
      m23 = z.m23;
      top_same = table_1;
    }

    Steps-Route : Route k base w.u top va n2 n3 m1 m2 m3
    Steps-Route = record {
      level = level_1;
      first =
          Link-after w.made_1 w.made_2 top_n3 top_n2 n2_n3
            (IsFresh-append n3 cs (n2 ∷ []) z.fresh (λ e. n2_n3 (sym e), tt)) z.fresh
            (omega
              (arith, w.made_1.tables top top_n2, w.made_1.table, z.page1.0, z.room.page.0, z.m12))
            z.room.enough;
      second = w.made_2.link;
      is_base = z.is_base;
      page1 = rw table_1 z.page1;
      page2 = rw table_2 z.room.page;
      page3 = rw w.made_2.table z.page3;
      m12 = z.m12;
      m13 = z.m13;
      m23 = z.m23;
    }

    -- The entries of the steps stand in the first table and in the new second one.
    Steps-word : (a : ℕ) → a ≢ slot_1 → a ≢ slot_2 → w.u.word a ≡ s.word a
    Steps-word a a1 a2 =
        let here : (w.t.desc n2).pt + 8 * index_2 va ≡ slot_2 =
          ap (λ p. p + 8 * index_2 va) w.made_1.table in
        rw (w.made_2.word, here, ne→== a slot_2 a2, w.made_1.word, ne→== a slot_1 a1)

module _ (core k : ℕ) (idle_task : Ptr) (base : ℕ) where
  -- `u` is the state with the two new tables, before the entry of the page.
  pub record Tables (s : Paging) (top va n2 n3 m1 m2 m3 p2 p3 : ℕ) (u : Paging) : Type 0 where
    pub path : Route k base u top va n2 n3 m1 m2 m3
    pub table : (u.desc n3).pt ≡ p3
    pub same :
        (a : ℕ)
        → a ≢ (s.desc top).pt + 8 * index_1 va
        → a ≢ p2 + 8 * index_2 va
        → u.word a ≡ s.word a

  module _ {s : Paging} {top va n2 n3 m1 m2 m3 p2 p3 : ℕ} {cs : List Ptr} {h1 h2 : Slab}
      (m flags : ℕ) (z : Fresh core k idle_task base s top va n2 n3 m1 m2 m3 p2 p3 cs h1 h2)
      (aligned : va % 4096 ≡ 0) (small : m < 2 ^ 27)
      (ok_flags : IsFlags (flags_or_kernel flags)) where
    pub map-Tables :
        (u : Paging) × (map_pa_to_va_pg core k idle_task (4096 * m) va top flags false s
          ≡ ok va (put_entry u p3 (index_3 va) (pt_entry (4096 * m) (flags_or_kernel flags))))
        × Tables s top va n2 n3 m1 m2 m3 p2 p3 u
        × Maps base
            (put_entry u p3 (index_3 va) (pt_entry (4096 * m) (flags_or_kernel flags)))
            top
            va
            (4096 * m)
    map-Tables =
        let f = flags_or_kernel flags in
        let w = steps core k idle_task base z f ok_flags in
        let walks = Steps-Walks core k idle_task base z f ok_flags w in
        (
          w.u,
          map-Walks core k idle_task m flags walks aligned small,
          record {
            path = Steps-Route core k idle_task base z f ok_flags w;
            table = w.made_2.table;
            same = Steps-word core k idle_task base z f ok_flags w;
          },
          after_walk-Maps core k idle_task base s w.t w.u top va n2 n3 m1 m2 m3 p2 p3 m f walks
              ok_flags small,
        )

  pub Tables-put :
      {s u : Paging} {top va n2 n3 m1 m2 m3 p2 p3 : ℕ} (e : ℕ)
      → Tables s top va n2 n3 m1 m2 m3 p2 p3 u
      → Route k base (put_entry u p3 (index_3 va) e) top va n2 n3 m1 m2 m3
  Tables-put {s} {u} {top} {va} {n2} {n3} {m1} {m2} {m3} e x =
      subst (λ p. Route k base (put_entry u p (index_3 va) e) top va n2 n3 m1 m2 m3) x.table
        (Route-put k base x.path e)

  -- A table of the first level has no entry for the page address `va`, and two descriptors and two
  -- pages are left for it, of which the second table's page has no entry where the walk reads. The
  -- page number `m` is below 2 ^ 39 bytes, and the attributes are those of a valid entry and have no
  -- bit of an address. Then `map_pa_to_va_pg` ends and returns `va`; the
  -- processor translates every address of the page to the page number `m`, the tables of the three
  -- levels stand for `va`, and no word but the three entries of the walk has changed.
  pub map-Fresh :
      {s : Paging} {top va n2 n3 m1 m2 m3 p2 p3 : ℕ} {cs : List Ptr} {h1 h2 : Slab} (m flags : ℕ)
      → Fresh core k idle_task base s top va n2 n3 m1 m2 m3 p2 p3 cs h1 h2
      → va % 4096 ≡ 0
      → m < 2 ^ 27
      → IsFlags (flags_or_kernel flags)
      → Ends
          (λ r v.
            (r ≡ va)
            × Maps base v top va (4096 * m)
            × Route k base v top va n2 n3 m1 m2 m3
            × ((a : ℕ)
                → a ≢ (s.desc top).pt + 8 * index_1 va
                → a ≢ p2 + 8 * index_2 va
                → a ≢ p3 + 8 * index_3 va
                → v.word a ≡ s.word a))
          (map_pa_to_va_pg core k idle_task (4096 * m) va top flags false s)
  map-Fresh {va = va} {p3 = p3} m flags z aligned small ok_flags =
      let (u, run, x, maps) = map-Tables m flags z aligned small ok_flags in
      rw run (
        ends (
          refl,
          maps,
          Tables-put (pt_entry (4096 * m) (flags_or_kernel flags)) x,
          λ a a1 a2 a3. rw (ne→== a (p3 + 8 * index_3 va) a3) (x.same a a1 a2),
        ))
