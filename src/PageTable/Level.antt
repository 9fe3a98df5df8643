-- ===== src/PageTable/Level.antt =====
-- One step of the walk, from a table to the table of the next level.
use hob_os.Base.{
  ℕ, ◌+◌, ◌*◌, ◌%◌, ◌^◌, ◌<◌, ◌≡◌, ◌≢◌, ◌∙◌, refl, sym, ap, List, [], ◌∷◌, ◌++◌, inl, inr, ◌==◌,
  update, eq→==, ne→==, lt→ltb, arith, length, IsFresh, IsDistinct, Bool-cases,
}
use hob_os.Base.Run.{ok, Ends, ends, after}
use hob_os.Base.Chain.{All, All-map, All-ne, All-zip, Linked, Linked-same}
use hob_os.Task.{Ptr, null}
use hob_os.Slub.{Slab}
use hob_os.Mm.{kmalloc}
use hob_os.PageTable.{Paging, PageTableDesc, va_to_pa, pt_entry}
use hob_os.PageTable.Access.{
  nexts, put, put_entry, load_desc-ok, store_desc-ok, load_entry-ok, place-ok, Kid,
  get_from_parent-Kid, Tied, add_child-Tied,
}
use hob_os.PageTable.Mmu.{IsBase, IsPage, IsFlags, Points, pt_entry-Points, va_to_pa-IsPage}
use hob_os.PageTable.Walk.{create_pt_desc, create_pt, next_level}

-- The entry `i` of `d` leads to the table with the page number `m`, whose descriptor is the child `c`.
pub record Link (k : ℕ) (s : Paging) (d : Ptr) (i m : ℕ) (c : Ptr) : Type 0 where
  pub d_ne : d ≢ null
  pub pt_ne : (s.desc d).pt ≢ null
  pub in_range : i < 512
  pub points : Points m (s.word ((s.desc d).pt + 8 * i))
  pub kid : Kid k s d m c
  pub deeper : (s.desc c).level ≡ (s.desc d).level + 1

-- A table without the entry `i`, and what a new one takes: the page number `m` at `p`, which
-- `kmalloc` returns, and the descriptor `n`, the next one of the array. The children are `cs`.
pub record Room (core k : ℕ) (idle_task : Ptr) (base : ℕ) (s : Paging) (d : Ptr) (i m : ℕ)
    (p n : Ptr) (cs : List Ptr) (h : Slab) : Type 0 where
  pub d_ne : d ≢ null
  pub pt_ne : (s.desc d).pt ≢ null
  pub in_range : i < 512
  pub empty : s.word ((s.desc d).pt + 8 * i) ≡ 0
  pub level : (s.desc d).level < 3
  pub page : IsPage base m p
  pub given : kmalloc core k idle_task 0x1000 s.heap ≡ ok p h
  pub tables_ne : s.global_page_tables ≢ null
  pub ctr : s.pt_ctr < 128
  pub place : n ≡ s.global_page_tables + 32 * s.pt_ctr
  pub new : n ≢ d
  pub fresh : IsFresh n cs
  pub chain : Linked (nexts s) (s.desc d).child_pt_desc cs
  pub distinct : IsDistinct cs
  pub others : All (λ a. va_to_pa (s.desc a).pt ≢ 4096 * m) cs
  pub enough : length cs < k

-- What the step leaves that makes a table.
pub record Made (k : ℕ) (s : Paging) (d : Ptr) (i m : ℕ) (p n : Ptr) (cs : List Ptr) (h : Slab)
    (e : ℕ) (t : Paging) : Type 0 where
  pub link : Link k t d i m n
  pub chain : Linked (nexts t) (t.desc d).child_pt_desc (cs ++ n ∷ [])
  pub others : All (λ a. va_to_pa (t.desc a).pt ≢ 4096 * m) cs
  pub word : t.word ≡ update s.word ((s.desc d).pt + 8 * i) e
  pub table : (t.desc n).pt ≡ p
  pub no_kids : (t.desc n).child_pt_desc ≡ null
  pub tables : (a : Ptr) → a ≢ n → (t.desc a).pt ≡ (s.desc a).pt
  pub levels : (a : Ptr) → a ≢ n → (t.desc a).level ≡ (s.desc a).level
  pub kids : (a : Ptr) → a ≢ n → a ≢ d → (t.desc a).child_pt_desc ≡ (s.desc a).child_pt_desc
  pub links : (a : Ptr) → a ≢ n → IsFresh a cs → nexts t a ≡ nexts s a
  pub heap : t.heap ≡ h
  pub all_tables : t.global_page_tables ≡ s.global_page_tables
  pub ctr : t.pt_ctr ≡ s.pt_ctr + 1

module _ (core k : ℕ) (idle_task : Ptr) where
  pub next_level-there :
      (s : Paging) (d i f m c : ℕ) → Link k s d i m c → next_level core k idle_task d i f s ≡ ok c s
  unfolding next_level
  next_level-there s d i f m c h =
      rw
        (
          load_desc-ok s d h.d_ne,
          load_entry-ok s (s.desc d).pt i h.pt_ne h.in_range,
          h.points.filled,
          h.points.extracted,
        )
        (get_from_parent-Kid core k idle_task s d m c h.d_ne h.kid)

  module _ {base : ℕ} {s : Paging} {d i m : ℕ} {p n : Ptr} {cs : List Ptr} {h : Slab} (f : ℕ)
      (room : Room core k idle_task base s d i m p n cs h) (b : IsBase base)
      (flags : IsFlags f) where
    n_ne : n ≢ null
    n_ne = omega (arith, room.place, room.tables_ne)

    -- The descriptor as `create_pt_desc` leaves it
    abbrev blank : PageTableDesc
    blank = record (s.desc n) {
      level = ((s.desc d).level + 1) % 2 ^ 8;
      pt_len = 0;
      next = null;
      child_pt_desc = null;
    }

    abbrev counted : Paging
    counted = record s { heap = h; pt_ctr = (s.pt_ctr + 1) % 2 ^ 8 }

    -- The state that `create_pt` leaves
    abbrev created : Paging
    created = put (put counted n blank) n (record blank { pt = p })

    create_pt_desc-blank :
        create_pt_desc core k idle_task ((s.desc d).level + 1) (record s { heap = h })
        ≡ ok n (put counted n blank)
    unfolding create_pt_desc
    create_pt_desc-blank = rw (
      ne→== s.global_page_tables null room.tables_ne,
      lt→ltb s.pt_ctr 128 room.ctr,
      ← room.place,
      load_desc-ok counted n n_ne,
      store_desc-ok counted n blank n_ne,
    )

    p_ne : p ≢ null
    p_ne = omega (arith, room.page.0, room.page.1)

    create_pt-created : create_pt core k idle_task 0 ((s.desc d).level + 1) s ≡ ok n created
    unfolding create_pt
    create_pt-created = rw (
      room.given,
      ne→== p null p_ne,
      create_pt_desc-blank,
      load_desc-ok (put counted n blank) n n_ne,
      eq→== n n refl,
      store_desc-ok (put counted n blank) n (record blank { pt = p }) n_ne,
    )

    abbrev entry : ℕ
    entry = pt_entry p f

    -- The state with the entry for the new table
    abbrev placed : Paging
    placed =
        put (put_entry created (created.desc d).pt i entry) d
          (record (created.desc d) { pt_len = i % 2 ^ 16 })

    created-other : (a : Ptr) → a ≢ n → created.desc a ≡ s.desc a
    created-other a ne = ground arith

    created-new : created.desc n ≡ record blank { pt = p }
    created-new = ground arith

    placed-new : placed.desc n ≡ record blank { pt = p }
    placed-new = ground (arith, room.new)

    placed-other :
        (a : Ptr) → a ≢ n → record (placed.desc a) { pt_len = 0 } ≡ record (s.desc a) { pt_len = 0 }
    placed-other a ne = elim (Bool-cases (a == d)) [ inl e ↦ ground arith | inr e ↦ ground arith ]

    placed-word : placed.word ≡ update s.word ((s.desc d).pt + 8 * i) entry
    placed-word = rw (created-other d (λ e. room.new (sym e)))

    placed-chain : Linked (nexts placed) (placed.desc d).child_pt_desc cs
    placed-chain = rw (ap PageTableDesc.child_pt_desc (placed-other d (λ e. room.new (sym e)))) (
        Linked-same (nexts s) (nexts placed) (s.desc d).child_pt_desc cs
          (All-map cs (λ a ne. ap PageTableDesc.next (placed-other a ne)) (All-ne n cs room.fresh))
          room.chain)

    made : (t : Paging) → Tied d cs n placed t → Made k s d i m p n cs h entry t
    made t tied =
        let dn : d ≢ n = λ e. room.new (sym e) in
        let pt_same : (a : Ptr) → a ≢ n → (t.desc a).pt ≡ (s.desc a).pt =
          λ a ne. tied.tables a ∙ ap PageTableDesc.pt (placed-other a ne) in
        let level_same : (a : Ptr) → a ≢ n → (t.desc a).level ≡ (s.desc a).level =
          λ a ne. tied.levels a ∙ ap PageTableDesc.level (placed-other a ne) in
        let slot = (s.desc d).pt + 8 * i in
        let words : t.word ≡ update s.word slot entry = tied.word ∙ placed-word in
        let value : t.word ((t.desc d).pt + 8 * i) ≡ entry =
          rw (pt_same d dn, words, eq→== slot slot refl) in
        let deep : ((s.desc d).level + 1) % 2 ^ 8 ≡ (s.desc d).level + 1 =
          omega (arith, room.level) in
        let pt_new : (t.desc n).pt ≡ p = tied.tables n ∙ ap PageTableDesc.pt placed-new in
        record {
          link = record {
            d_ne = room.d_ne;
            pt_ne = rw (pt_same d dn) room.pt_ne;
            in_range = room.in_range;
            points = rw value (pt_entry-Points base m p f b room.page flags);
            kid = record {
              before = cs;
              behind = [];
              chain = tied.chain;
              others =
                  All-zip cs (λ a ne o. rw (pt_same a ne) o) (All-ne n cs room.fresh) room.others;
              this = rw pt_new (va_to_pa-IsPage base m p b room.page);
              enough = room.enough;
            };
            deeper =
                tied.levels n
                ∙ ap PageTableDesc.level placed-new
                ∙ deep
                ∙ ap (λ l. l + 1) (sym (level_same d dn));
          };
          chain = tied.chain;
          others = All-zip cs (λ a ne o. rw (pt_same a ne) o) (All-ne n cs room.fresh) room.others;
          word = words;
          table = pt_new;
          no_kids = tied.kids n room.new ∙ ap PageTableDesc.child_pt_desc placed-new;
          tables = pt_same;
          levels = level_same;
          kids = λ a ne nd. tied.kids a nd ∙ ap PageTableDesc.child_pt_desc (placed-other a ne);
          links = λ a ne fr. tied.links a fr ∙ ap PageTableDesc.next (placed-other a ne);
          heap = tied.heap;
          all_tables = tied.all_tables;
          ctr = tied.ctr ∙ omega (arith, room.ctr);
        }

    pub next_level-new :
        Ends
          (λ c t. (c ≡ n) × Made k s d i m p n cs h entry t)
          (next_level core k idle_task d i f s)
    unfolding next_level
    next_level-new =
        rw
          (
            load_desc-ok s d room.d_ne,
            load_entry-ok s (s.desc d).pt i room.pt_ne room.in_range,
            room.empty,
            create_pt-created,
            ne→== n null n_ne,
            load_desc-ok created n n_ne,
            created-new,
            place-ok created d entry i room.d_ne
                (rw (created-other d (λ e. room.new (sym e))) room.pt_ne) room.in_range,
          )
          (after
            (add_child-Tied core k idle_task placed d n cs room.d_ne n_ne placed-chain room.distinct
              room.fresh (ap PageTableDesc.next placed-new) (omega (arith, room.enough)))
            λ _ t tied. ends (refl, made t tied))

-- A new link stands after the next step has made another table.
pub Link-after :
    {k : ℕ} {s t u : Paging} {d i m p n i' m' p' n' e e' : ℕ} {cs : List Ptr} {h h' : Slab}
    → Made k s d i m p n cs h e t
    → Made k t n i' m' p' n' [] h' e' u
    → d ≢ n'
    → d ≢ n
    → n ≢ n'
    → IsFresh n' (cs ++ n ∷ [])
    → IsFresh n' cs
    → (t.desc d).pt + 8 * i ≢ (t.desc n).pt + 8 * i'
    → length cs < k
    → Link k u d i m n
Link-after {k} {s} {t} {u} {d} {i} {m} {p} {n} {i'} {m'} {p'} {n'} {e} {e'} {cs} one two dn' dn nn'
      fresh fresh_cs apart enough =
    let l = one.link in
    let pt_d : (u.desc d).pt ≡ (t.desc d).pt = two.tables d dn' in
    let value : u.word ((u.desc d).pt + 8 * i) ≡ t.word ((t.desc d).pt + 8 * i) =
      rw (pt_d, two.word, ne→== ((t.desc d).pt + 8 * i) ((t.desc n).pt + 8 * i') apart) refl in
    record {
      d_ne = l.d_ne;
      pt_ne = rw pt_d l.pt_ne;
      in_range = l.in_range;
      points = rw value l.points;
      kid = record {
        before = cs;
        behind = [];
        chain = rw (two.kids d dn' dn) (
            Linked-same (nexts t) (nexts u) (t.desc d).child_pt_desc (cs ++ n ∷ [])
              (All-map (cs ++ n ∷ []) (λ a ne. two.links a ne tt) (All-ne n' (cs ++ n ∷ []) fresh))
              one.chain);
        others = All-zip cs (λ a ne o. rw (two.tables a ne) o) (All-ne n' cs fresh_cs) one.others;
        this = rw (two.tables n nn') l.kid.this;
        enough = enough;
      };
      deeper = rw (two.levels n nn', two.levels d dn') l.deeper;
    }
