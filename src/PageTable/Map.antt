-- ===== src/PageTable/Map.antt =====
-- The whole walk: what `map_pa_to_va_pg` makes of the translation.
use hob_os.Base.{
  ℕ, ◌+◌, ◌*◌, ◌/◌, ◌%◌, ◌^◌, ◌<◌, ◌≡◌, ◌≢◌, ◌∙◌, refl, ap, List, Bool, true, false, some, ◌==◌,
  if◌then◌else◌, eq→==, ne→==, arith,
}
use hob_os.Base.Run.{ok}
use hob_os.Task.{Ptr, null}
use hob_os.Slub.{Slab}
use hob_os.PageTable.{
  Paging, VaMetadata, va_to_pa, pt_entry, extract_va_metadata, pte_flags_kernel_generic,
}
use hob_os.PageTable.Access.{Kid-ne, put_entry, load_desc-ok, store_entry-ok}
use hob_os.PageTable.Level.{Link, Made, next_level-there}
use hob_os.PageTable.Mmu.{
  IsBase, IsPage, IsFlags, Points, translate, is_valid, output_address, pt_entry-leaf,
  va_to_pa-IsPage,
}
use hob_os.PageTable.Walk.{next_level, map_loop, map_pa_to_va_pg, index_at}

abbrev pub index_1 : ℕ → ℕ
index_1 va = va / 2 ^ 30 % 2 ^ 9

abbrev pub index_2 : ℕ → ℕ
index_2 va = va / 2 ^ 21 % 2 ^ 9

abbrev pub index_3 : ℕ → ℕ
index_3 va = va / 2 ^ 12 % 2 ^ 9

-- The attributes that the walk writes
abbrev pub flags_or_kernel : ℕ → ℕ
flags_or_kernel flags = if flags == 0 then pte_flags_kernel_generic else flags

-- The processor translates every address of the page of `va` to the page at `pa`.
abbrev pub Maps : ℕ → Paging → Ptr → ℕ → ℕ → Type 0
Maps base s top va pa =
    (a : ℕ)
    → a / 4096 ≡ va / 4096
    → translate (λ x. s.word (base + x)) (va_to_pa (s.desc top).pt) a ≡ some (pa + a % 4096)

-- Three entries in a row, and the translation that they make.
pub translate-entries :
    (w : ℕ → ℕ) (base m1 m2 m3 va pa : ℕ)
    → Points m2 (w (base + 4096 * m1 + 8 * index_1 va))
    → Points m3 (w (base + 4096 * m2 + 8 * index_2 va))
    → is_valid (w (base + 4096 * m3 + 8 * index_3 va)) ≡ true
    → output_address (w (base + 4096 * m3 + 8 * index_3 va)) ≡ pa
    → (a : ℕ) → a / 4096 ≡ va / 4096
    → translate (λ x. w (base + x)) (4096 * m1) a ≡ some (pa + a % 4096)
unfolding translate
translate-entries w base m1 m2 m3 va pa p1 p2 v o a same =
    let i1 : index_1 a ≡ index_1 va = omega arith in
    let i2 : index_2 a ≡ index_2 va = omega arith in
    let i3 : index_3 a ≡ index_3 va = omega arith in
    let out : (m i : ℕ) → base + (4096 * m + 8 * i) ≡ base + 4096 * m + 8 * i =
      λ m i. omega arith in
    rw (
      i1,
      out m1 (index_1 va),
      p1.valid,
      p1.out,
      i2,
      out m2 (index_2 va),
      p2.valid,
      p2.out,
      i3,
      out m3 (index_3 va),
      v,
      o,
    )

-- One step of the walk, with or without a new table.
pub record Step (core k : ℕ) (idle_task d i m c p f : ℕ) (s t : Paging) : Type 0 where
  pub run : next_level core k idle_task d i f s ≡ ok c t
  pub link : Link k t d i m c
  pub table : (t.desc c).pt ≡ p
  pub level : (t.desc c).level ≡ (s.desc d).level + 1
  pub others : (a : ℕ) → a ≢ (s.desc d).pt + 8 * i → t.word a ≡ s.word a
  pub same : (t.desc d).pt ≡ (s.desc d).pt
  pub c_ne : c ≢ null

abbrev meta : ℕ → ℕ → VaMetadata
meta va pa = record (extract_va_metadata va) { offset = (va % 2 ^ 12 + pa) % 2 ^ 64 }

module _ (core k : ℕ) (idle_task : Ptr) (pa va f : ℕ) (walk_only : Bool) where
  loop_1 :
      (s t : Paging) (d m c p : ℕ)
      → (s.desc d).level ≡ 1
      → d ≢ null
      → Step core k idle_task d (index_1 va) m c p f s t
      → map_loop core k idle_task 3 1 (meta va pa) va f walk_only d s
        ≡ map_loop core k idle_task 2 2 (meta va pa) va f walk_only c t
  unfolding map_loop index_at extract_va_metadata
  loop_1 s t d m c p l ne step = rw (load_desc-ok s d ne, l, step.run, ne→== c null step.c_ne)

  loop_2 :
      (s t : Paging) (d m c p : ℕ)
      → (s.desc d).level ≡ 2
      → d ≢ null
      → Step core k idle_task d (index_2 va) m c p f s t
      → map_loop core k idle_task 2 2 (meta va pa) va f walk_only d s
        ≡ map_loop core k idle_task 1 3 (meta va pa) va f walk_only c t
  unfolding map_loop index_at extract_va_metadata
  loop_2 s t d m c p l ne step = rw (load_desc-ok s d ne, l, step.run, ne→== c null step.c_ne)

loop_3 :
    (core k : ℕ) (idle_task : Ptr) (pa va f : ℕ) (s : Paging) (d : Ptr)
    → (s.desc d).level ≡ 3
    → d ≢ null
    → (s.desc d).pt ≢ null
    → map_loop core k idle_task 1 3 (meta va pa) va f false d s
      ≡ ok va (put_entry s (s.desc d).pt (index_3 va) (pt_entry ((va % 2 ^ 12 + pa) % 2 ^ 64) f))
unfolding map_loop index_at extract_va_metadata
loop_3 core k idle_task pa va f s d l ne pn = rw (
  load_desc-ok s d ne,
  l,
  store_entry-ok s (s.desc d).pt (index_3 va) (pt_entry ((va % 2 ^ 12 + pa) % 2 ^ 64) f) pn
      (omega arith),
)

-- The walk without a mapping returns where the entry of the last level stands.
loop_3_walk :
    (core k : ℕ) (idle_task : Ptr) (pa va f : ℕ) (s : Paging) (d : Ptr)
    → (s.desc d).level ≡ 3
    → d ≢ null
    → map_loop core k idle_task 1 3 (meta va pa) va f true d s
      ≡ ok ((s.desc d).pt + 8 * index_3 va) s
unfolding map_loop index_at extract_va_metadata
loop_3_walk core k idle_task pa va f s d l ne = rw (load_desc-ok s d ne, l)

module _ (core k : ℕ) (idle_task : Ptr) where
  pub Link-Step :
      {s : Paging} {d i m c : ℕ} (f : ℕ)
      → Link k s d i m c
      → Step core k idle_task d i m c (s.desc c).pt f s s
  Link-Step {s} {d} {i} {m} {c} f l = record {
    run = next_level-there core k idle_task s d i f m c l;
    link = l;
    table = refl;
    level = l.deeper;
    others = λ a h. refl;
    same = refl;
    c_ne = Kid-ne l.kid;
  }

  pub Made-Step :
      {s t : Paging} {d i m p n e : ℕ} {cs : List Ptr} {h : Slab} (f : ℕ)
      → next_level core k idle_task d i f s ≡ ok n t
      → d ≢ n
      → (t.desc n).level ≡ (s.desc d).level + 1
      → Made k s d i m p n cs h e t
      → Step core k idle_task d i m n p f s t
  Made-Step {s} {t} {d} {i} f run dn lev made = record {
    run = run;
    link = made.link;
    table = made.table;
    level = lev;
    others = λ a h. rw (made.word, ne→== a ((s.desc d).pt + 8 * i) h) refl;
    same = made.tables d dn;
    c_ne = Kid-ne made.link.kid;
  }

  -- Two steps of the walk from `top`, through three tables.
  pub record Walks (base : ℕ) (s t u : Paging) (top va d2 d3 m1 m2 m3 p2 p3 f : ℕ) : Type 0 where
    pub one : Step core k idle_task top (index_1 va) m2 d2 p2 f s t
    pub two : Step core k idle_task d2 (index_2 va) m3 d3 p3 f t u
    pub level : (s.desc top).level ≡ 1
    pub top_ne : top ≢ null
    pub is_base : IsBase base
    pub page1 : IsPage base m1 (s.desc top).pt
    pub page2 : IsPage base m2 p2
    pub page3 : IsPage base m3 p3
    pub m12 : m1 ≢ m2
    pub m13 : m1 ≢ m3
    pub m23 : m2 ≢ m3
    pub top_same : (u.desc top).pt ≡ (s.desc top).pt

  -- The state after the walk
  abbrev pub mapped : Paging → ℕ → ℕ → ℕ → ℕ → Paging
  mapped u p3 va m f = put_entry u p3 (index_3 va) (pt_entry (4096 * m) f)

  module _ (base : ℕ) (s t u : Paging) (top va d2 d3 m1 m2 m3 p2 p3 m f : ℕ)
      (w : Walks base s t u top va d2 d3 m1 m2 m3 p2 p3 f) where
    abbrev pub after_walk : Paging
    after_walk = mapped u p3 va m f

    entry_1 :
        after_walk.word (base + 4096 * m1 + 8 * index_1 va)
        ≡ t.word ((t.desc top).pt + 8 * index_1 va)
    entry_1 =
        let a = base + 4096 * m1 + 8 * index_1 va in
        let here : (t.desc top).pt + 8 * index_1 va ≡ a = omega (arith, w.one.same, w.page1.0) in
        let far : a ≢ p3 + 8 * index_3 va = omega (arith, w.page3.0, w.m13) in
        let far2 : a ≢ (t.desc d2).pt + 8 * index_2 va =
          omega (arith, w.one.table, w.page2.0, w.m12) in
        rw (here, ne→== a (p3 + 8 * index_3 va) far) (w.two.others a far2)

    entry_2 :
        after_walk.word (base + 4096 * m2 + 8 * index_2 va)
        ≡ u.word ((u.desc d2).pt + 8 * index_2 va)
    entry_2 =
        let a = base + 4096 * m2 + 8 * index_2 va in
        let here : (u.desc d2).pt + 8 * index_2 va ≡ a =
          omega (arith, w.two.same, w.one.table, w.page2.0) in
        let far : a ≢ p3 + 8 * index_3 va = omega (arith, w.page3.0, w.m23) in
        rw (here, ne→== a (p3 + 8 * index_3 va) far)

    entry_3 : after_walk.word (base + 4096 * m3 + 8 * index_3 va) ≡ pt_entry (4096 * m) f
    entry_3 =
        let a = base + 4096 * m3 + 8 * index_3 va in
        let here : a ≡ p3 + 8 * index_3 va = omega (arith, w.page3.0) in
        rw (here, eq→== (p3 + 8 * index_3 va) (p3 + 8 * index_3 va) refl)

    pub after_walk-Maps : IsFlags f → m < 2 ^ 27 → Maps base after_walk top va (4096 * m)
    after_walk-Maps flags small a same =
        let leaf = pt_entry-leaf m f flags small in
        rw (w.top_same, va_to_pa-IsPage base m1 (s.desc top).pt w.is_base w.page1)
          (translate-entries after_walk.word base m1 m2 m3 va (4096 * m)
            (rw entry_1 w.one.link.points) (rw entry_2 w.two.link.points) (rw entry_3 leaf.0)
            (rw entry_3 leaf.1) a same)

  module _ {base : ℕ} {s t u : Paging} {top va d2 d3 m1 m2 m3 p2 p3 : ℕ} (m flags : ℕ)
      (w : Walks base s t u top va d2 d3 m1 m2 m3 p2 p3 (flags_or_kernel flags)) where
    level_2 : (t.desc d2).level ≡ 2
    level_2 = w.one.level ∙ ap (λ l. l + 1) w.level

    level_3 : (u.desc d3).level ≡ 3
    level_3 = w.two.level ∙ ap (λ l. l + 1) level_2

    p3_ne : (u.desc d3).pt ≢ null
    p3_ne = omega (arith, w.two.table, w.page3.0, w.page3.1)

    pub map-Walks :
        va % 4096 ≡ 0
        → m < 2 ^ 27
        → map_pa_to_va_pg core k idle_task (4096 * m) va top flags false s
          ≡ ok va (mapped u p3 va m (flags_or_kernel flags))
    unfolding map_pa_to_va_pg extract_va_metadata
    map-Walks aligned small =
        let f = flags_or_kernel flags in
        let off : (va % 2 ^ 12 + 4096 * m) % 2 ^ 64 ≡ 4096 * m = omega arith in
        rw (
          load_desc-ok s top w.top_ne,
          w.level,
          loop_1 core k idle_task (4096 * m) va f false s t top m2 d2 p2 w.level w.top_ne w.one,
          loop_2 core k idle_task (4096 * m) va f false t u d2 m3 d3 p3 level_2 w.one.c_ne w.two,
          loop_3 core k idle_task (4096 * m) va f u d3 level_3 w.two.c_ne p3_ne,
          w.two.table,
          off,
        )

    pub walk-Walks :
        (pa : ℕ)
        → map_pa_to_va_pg core k idle_task pa va top flags true s ≡ ok (p3 + 8 * index_3 va) u
    unfolding map_pa_to_va_pg extract_va_metadata
    walk-Walks pa =
        let f = flags_or_kernel flags in
        rw (
          load_desc-ok s top w.top_ne,
          w.level,
          loop_1 core k idle_task pa va f true s t top m2 d2 p2 w.level w.top_ne w.one,
          loop_2 core k idle_task pa va f true t u d2 m3 d3 p3 level_2 w.one.c_ne w.two,
          loop_3_walk core k idle_task pa va f u d3 level_3 w.two.c_ne,
          w.two.table,
        )
