-- ===== src/PageTable/Access.antt =====
-- Reads and writes of descriptors and entries, and the lists of children.
use hob_os.Base.{
  ℕ, zero, suc, ◌+◌, ◌*◌, ◌%◌, ◌^◌, ◌<◌, ◌≤◌, ◌≡◌, ◌≢◌, refl, sym, List, [], ◌∷◌, ◌++◌, inl, inr,
  ◌==◌, update, eq→==, ne→==, lt→ltb, arith, length, IsFresh, IsDistinct, Bool-cases,
}
use hob_os.Base.Int.{pos}
use hob_os.Base.Run.{ok, Ends, ends}
use hob_os.Base.Chain.{All, All-last, Linked, Linked-ne, Linked-snoc, last, ne-last}
use hob_os.Task.{Ptr, null}
use hob_os.PageTable.{
  Paging, PageTableDesc, va_to_pa, load_desc, store_desc, load_entry, store_entry, place_pt_entry,
}
use hob_os.PageTable.Walk.{
  last_desc_loop, find_desc_loop, pt_desc_add_child, pt_desc_get_from_parent,
}

abbrev pub nexts : Paging → ℕ → ℕ
nexts s a = (s.desc a).next

-- The state after `*d = v`
abbrev pub put : Paging → Ptr → PageTableDesc → Paging
put s d v = record s { desc = update s.desc d v }

-- The state after `pt[i] = e`
abbrev pub put_entry : Paging → Ptr → ℕ → ℕ → Paging
put_entry s pt i e = record s { word = update s.word (pt + 8 * i) e }

module _ (s : Paging) where
  pub load_desc-ok : (d : Ptr) → d ≢ null → load_desc d s ≡ ok (s.desc d) s
  unfolding load_desc
  load_desc-ok d ne = rw (ne→== d null ne)

  pub store_desc-ok :
      (d : Ptr) (v : PageTableDesc) → d ≢ null → store_desc d v s ≡ ok tt (put s d v)
  unfolding store_desc
  store_desc-ok d v ne = rw (ne→== d null ne)

  pub load_entry-ok :
      (pt i : ℕ) → pt ≢ null → i < 512 → load_entry pt i s ≡ ok (s.word (pt + 8 * i)) s
  unfolding load_entry
  load_entry-ok pt i ne h = rw (ne→== pt null ne, lt→ltb i 512 h)

  pub store_entry-ok :
      (pt i e : ℕ) → pt ≢ null → i < 512 → store_entry pt i e s ≡ ok tt (put_entry s pt i e)
  unfolding store_entry
  store_entry-ok pt i e ne h = rw (ne→== pt null ne, lt→ltb i 512 h)

pub place-ok :
    (s : Paging) (d : Ptr) (e i : ℕ)
    → d ≢ null
    → (s.desc d).pt ≢ null
    → i < 512
    → place_pt_entry d e (pos i) s
      ≡ ok tt (put (put_entry s (s.desc d).pt i e) d (record (s.desc d) { pt_len = i % 2 ^ 16 }))
unfolding place_pt_entry
place-ok s d e i ne pn h =
    let v = s.desc d in
    let t = put_entry s v.pt i e in
    rw (load_desc-ok s d ne, store_entry-ok s v.pt i e pn h)
      (store_desc-ok t d (record v { pt_len = i % 2 ^ 16 }) ne)

-- `c` is the first child of `d` whose table is the page number `m`.
pub record Kid (k : ℕ) (s : Paging) (d : Ptr) (m : ℕ) (c : Ptr) : Type 0 where
  pub before : List Ptr
  pub behind : List Ptr
  pub chain : Linked (nexts s) (s.desc d).child_pt_desc (before ++ c ∷ behind)
  pub others : All (λ a. va_to_pa (s.desc a).pt ≢ 4096 * m) before
  pub this : va_to_pa (s.desc c).pt ≡ 4096 * m
  pub enough : length before < k

mid_ne :
    (nx : ℕ → ℕ) (q c : ℕ) (before behind : List ℕ) → Linked nx q (before ++ c ∷ behind) → c ≢ 0
mid_ne nx q c [] behind l = l.1
mid_ne nx q c (x ∷ xs) behind l = mid_ne nx (nx x) c xs behind l.2

pub Kid-ne : {k : ℕ} {s : Paging} {d m c : ℕ} → Kid k s d m c → c ≢ null
Kid-ne {k} {s} {d} {m} {c} h = mid_ne (nexts s) (s.desc d).child_pt_desc c h.before h.behind h.chain

find-first :
    (k : ℕ) (s : Paging) (q m c : ℕ) (before behind : List Ptr)
    → Linked (nexts s) q (before ++ c ∷ behind)
    → All (λ a. va_to_pa (s.desc a).pt ≢ 4096 * m) before
    → va_to_pa (s.desc c).pt ≡ 4096 * m
    → length before < k
    → find_desc_loop k (4096 * m) q s ≡ ok c s
unfolding find_desc_loop
find-first zero s q m c before behind l o t f = absurd (omega arith)
find-first (suc k) s q m c [] behind l o t f =
    rw (l.0, ne→== c null l.1, load_desc-ok s c l.1, t, eq→== (4096 * m) (4096 * m) refl)
find-first (suc k) s q m c (x ∷ xs) behind l o t f =
    rw
      (
        l.0,
        ne→== x null l.1,
        load_desc-ok s x l.1,
        ne→== (4096 * m) (va_to_pa (s.desc x).pt) (λ e. o.0 (sym e)),
      )
      (find-first k s (nexts s x) m c xs behind l.2 o.1 t (omega arith))

last_desc_loop-last :
    (k : ℕ) (q x : Ptr) (s : Paging) (xs : List Ptr)
    → Linked (nexts s) q (x ∷ xs)
    → length xs < k
    → last_desc_loop k x s ≡ ok (last x xs) s
unfolding last_desc_loop last
last_desc_loop-last zero q x s xs l f = absurd (omega arith)
last_desc_loop-last (suc k) q x s [] l f = rw (load_desc-ok s x l.1, l.2)
last_desc_loop-last (suc k) q x s (y ∷ ys) l f =
    rw (load_desc-ok s x l.1, l.2.0, ne→== y null l.2.1)
      (last_desc_loop-last k (nexts s x) y s ys l.2 (omega arith))

put_child :
    (s : Paging) (e d n : Ptr)
    → ((put s e (record (s.desc e) { next = n })).desc d).child_pt_desc ≡ (s.desc d).child_pt_desc
put_child s e d n = elim (Bool-cases (d == e)) [ inl h ↦ ground arith | inr h ↦ ground arith ]

-- What the linking of a child leaves: only `next` of the children in the list `cs` and the child of
-- `d` have changed.
pub record Tied (d : Ptr) (cs : List Ptr) (n : Ptr) (s t : Paging) : Type 0 where
  pub chain : Linked (nexts t) (t.desc d).child_pt_desc (cs ++ n ∷ [])
  pub tables : (a : Ptr) → (t.desc a).pt ≡ (s.desc a).pt
  pub levels : (a : Ptr) → (t.desc a).level ≡ (s.desc a).level
  pub kids : (a : Ptr) → a ≢ d → (t.desc a).child_pt_desc ≡ (s.desc a).child_pt_desc
  pub links : (a : Ptr) → IsFresh a cs → nexts t a ≡ nexts s a
  pub word : t.word ≡ s.word
  pub heap : t.heap ≡ s.heap
  pub all_tables : t.global_page_tables ≡ s.global_page_tables
  pub ctr : t.pt_ctr ≡ s.pt_ctr

module _ (core k : ℕ) (idle_task : Ptr) where
  pub get_from_parent-Kid :
      (s : Paging) (d m c : ℕ)
      → d ≢ null
      → Kid k s d m c
      → pt_desc_get_from_parent core k idle_task (4096 * m) d s ≡ ok c s
  unfolding pt_desc_get_from_parent
  get_from_parent-Kid s d m c ne h = rw (load_desc-ok s d ne) (
      find-first k s (s.desc d).child_pt_desc m c h.before h.behind h.chain h.others h.this
        h.enough)

  pub add_child-Tied :
      (s : Paging) (d n : Ptr) (cs : List Ptr)
      → d ≢ null
      → n ≢ null
      → Linked (nexts s) (s.desc d).child_pt_desc cs
      → IsDistinct cs
      → IsFresh n cs
      → nexts s n ≡ null
      → length cs ≤ k
      → Ends (λ _ t. Tied d cs n s t) (pt_desc_add_child core k idle_task d n s)
  unfolding pt_desc_add_child
  add_child-Tied s d n [] ne nn l dist f z e =
      let v = record (s.desc d) { child_pt_desc = n } in
      rw (load_desc-ok s d ne, l, store_desc-ok s d v ne)
        (ends {s = put s d v} (record {
          chain = (ground arith, nn, ground arith);
          tables = λ a. ground arith;
          levels = λ a. ground arith;
          kids = λ a h. ground arith;
          links = λ a h. ground arith;
          word = refl;
          heap = refl;
          all_tables = refl;
          ctr = refl;
        }))
  add_child-Tied s d n (x ∷ xs) ne nn l dist f z e =
      let end = last x xs in
      let q = (s.desc d).child_pt_desc in
      let en : end ≢ null = All-last (λ a. a ≢ 0) x xs (Linked-ne (nexts s) q (x ∷ xs) l) in
      let w = record (s.desc end) { next = n } in
      rw
        (
          load_desc-ok s d ne,
          l.0,
          ne→== x null l.1,
          last_desc_loop-last k q x s xs l (omega arith),
          load_desc-ok s end en,
          store_desc-ok s end w en,
        )
        (ends {s = put s end w} (record {
          chain =
              let same : ((put s end w).desc d).child_pt_desc ≡ q = put_child s end d n in
              rw same (
                Linked-snoc (nexts s) (nexts (put s end w)) n q x xs l dist f nn
                  (ground (arith, ne-last x xs f)) (ground arith) (λ a h _. ground arith));
          tables = λ a. ground arith;
          levels = λ a. ground arith;
          kids = λ a h. ground arith;
          links = λ a h. ground (arith, ne-last x xs h);
          word = refl;
          heap = refl;
          all_tables = refl;
          ctr = refl;
        }))
