-- ===== src/PageAlloc/Rejoin.antt =====
-- `page_free` behind splits of one block: the pieces become one block again.
use Prim.Native.Nat.{bit_xor}
use hob_os.Base.{
  ℕ, zero, suc, ◌+◌, ◌-◌, ◌*◌, ◌^◌, ◌≤◌, ◌<◌, ◌≡◌, ◌≢◌, refl, sym, ap, subst, ◌∙◌, List, [], ◌∷◌,
  true, false, ◌&&◌, ◌==◌, ltb, lt→ltb, if◌then◌else◌, ne→==, eq→==, arith, Bool-cases, inl, inr,
}
use native.Mathlib.Decide.{dec_lt}
use hob_os.Base.Run.{ok, Ends, ends, after}
use hob_os.Base.Chain.{All, Linked}
use hob_os.PageAlloc.Block.{Ptr, null, PageBlock, FreeListHeader, max_page_order, page_size}
use hob_os.PageAlloc.Alloc.{
  find_pfn_loop, find_pfn_in_order, find_block_loop, find_block_by_pfn, merge_buddy, merge_depth,
  page_free,
}
use hob_os.PageAlloc.Rep.{nexts, IsOf, Rep, push, load-ok, get_list-ok}
use hob_os.PageAlloc.Lookup.{is_free}
use hob_os.PageAlloc.Append.{Appended, new_page_block-created}
use hob_os.PageAlloc.Split.{append_one}
use hob_os.PageAlloc.Unlink.{with_list}
use hob_os.PageAlloc.Release.{unmarked, mark_block_free-ok, Rep-unmarked}
use hob_os.PageAlloc.Second.{remove_page_block-second, remove_page_block-only}
use hob_os.PageAlloc.Find.{IsAbsent}
use hob_os.PageAlloc.Stair.{
  Rep-ext, stair, page_at, page_at-lt, same_flags, no_flags, Stair, Pieces, stair-pair, stair-last,
  stair-one, stair-none, stair-up, buddy-down, buddy-other,
}
use hob_os.PageAlloc.Buddy.{
  not_used, get_block_buddy-absent, get_block_buddy-first, find_pfn_in_order-absent,
}

-- Of all lists, the one of order `k` has one block, which is free and has the address `A`.
pub record Whole (k A : ℕ) (s : FreeListHeader) : Type 0 where
  pub block : Ptr
  pub rep : Rep (max_page_order + 1) s (λ j. if j == k then block ∷ [] else [])
  pub page : (s.block block).page ≡ A
  pub free : is_free s block ≡ true

pub stair-top :
    (k : ℕ) (u : ℕ → Ptr) (w : Ptr) (j : ℕ) → stair k u k w j ≡ (if j == k then w ∷ [] else [])
stair-top k u w j = elim (Bool-cases (j == k)) [
  | inl e ↦ let l : ltb k k ≡ false = ground arith in rw (e, l) refl
  | inr e ↦ let l : (ltb k j && ltb j k) ≡ false = ground arith in rw (e, l) refl
]

-- The state behind one merge: `s` before, `t` and `t'` behind the removals, `v` behind the insertion
Stair-up :
    {k A : ℕ} (u : ℕ → Ptr) (c : ℕ) (w : Ptr) (s t t' v : FreeListHeader)
    → Stair k A u c w s
    → c < k
    → t.last_entry ≡ s.last_entry
    → t'.last_entry ≡ t.last_entry
    → ((a : Ptr) → record (t.block a) { next = (s.block a).next } ≡ s.block a)
    → t'.block ≡ t.block
    → Rep
        (max_page_order + 1)
        v
        (push (with_list (with_list (stair k u c w) c (u c ∷ [])) c []) (suc c) (t'.last_entry + 1))
    → {xs : List Ptr} → Appended (suc c) (s.block (u c)).page xs t' v
    → Stair k A u (suc c) (t'.last_entry + 1) v
Stair-up {k} u c w s t t' v r h last last' same same' rep a =
    let old : (d : ℕ) → suc c ≤ d → d < k → u d ≢ t'.last_entry + 1 = λ d lo hi.
      let one = stair-one k u c w d (omega arith) hi in
      let of : IsOf s d (u d) =
        (subst (All (IsOf s d)) one (r.rep.members d (omega (arith, r.small)))).0 in
      omega (arith, of.1, last, last') in
    record {
      rep = Rep-ext (stair-up k u c w (t'.last_entry + 1) (u c ∷ []) h) rep;
      below = h;
      small = r.small;
      page = ap PageBlock.page a.new ∙ r.pages c (omega arith) h;
      free = no_flags v (t'.last_entry + 1) (ap PageBlock.flags a.new);
      pages = λ d lo hi.
          ap PageBlock.page (a.same (u d) (old d lo hi))
          ∙ ap (λ (f : Ptr → PageBlock). (f (u d)).page) same'
          ∙ ap PageBlock.page (same (u d))
          ∙ r.pages d (omega arith) hi;
      frees = λ d lo hi.
          same_flags s v (u d)
            (ap PageBlock.flags (a.same (u d) (old d lo hi))
              ∙ ap (λ (f : Ptr → PageBlock). (f (u d)).flags) same'
              ∙ ap PageBlock.flags (same (u d)))
            (r.frees d (omega arith) hi);
    }

module _ (fuel k A q : ℕ) (aligned : A ≡ q * (page_size * 2 ^ k)) where
  -- At the top there is no buddy.
  merge_buddy-top :
      (depth : ℕ) (u : ℕ → Ptr) (w : Ptr) (s : FreeListHeader)
      → Stair k A u k w s
      → s.last_entry < fuel
      → Ends (λ _ t. Whole k A t) (merge_buddy fuel (suc depth) w s)
  unfolding merge_buddy
  merge_buddy-top depth u w s r f =
      let kb : k < max_page_order + 1 = omega (arith, r.small) in
      let at = stair-last k u w in
      let l : Linked (nexts s) (s.list k).first (w ∷ []) =
        subst (Linked (nexts s) (s.list k).first) at (r.rep.chain k kb) in
      let of : IsOf s k w = (subst (All (IsOf s k)) at (r.rep.members k kb)).0 in
      let pfn = bit_xor (page_size * 2 ^ k) (s.block w).page in
      let other : (s.block w).page ≢ pfn =
        λ e. buddy-other k A q aligned k (s.block w).page (sym e) in
      rw
        (
          load-ok s w l.1,
          get_block_buddy-absent fuel r.rep k kb f w l.1 of.0
              (subst (IsAbsent s pfn) (sym at) (other, tt)),
        )
        (ends (record {
          block = w;
          rep = Rep-ext (stair-top k u w) r.rep;
          page = omega (arith, r.page);
          free = r.free;
        }))

  -- One merge
  merge_buddy-up :
      (depth : ℕ) (u : ℕ → Ptr) (c : ℕ) (w : Ptr) (s : FreeListHeader)
      → Stair k A u c w s
      → c < k
      → s.last_entry + 1 < fuel
      → s.last_entry + 1 < 2 ^ 32
      → ((w' : Ptr) (t : FreeListHeader)
          → Stair k A u (suc c) w' t
          → t.last_entry ≡ s.last_entry + 1
          → Ends (λ _ v. Whole k A v) (merge_buddy fuel depth w' t))
      → Ends (λ _ t. Whole k A t) (merge_buddy fuel (suc depth) w s)
  unfolding merge_buddy
  merge_buddy-up depth u c w s r h f g next =
      let cb : c < max_page_order + 1 = omega (arith, r.small) in
      let at = stair-pair k u c w h in
      let l : Linked (nexts s) (s.list c).first (u c ∷ w ∷ []) =
        subst (Linked (nexts s) (s.list c).first) at (r.rep.chain c cb) in
      let of = subst (All (IsOf s c)) at (r.rep.members c cb) in
      let buddy : (s.block (u c)).page ≡ bit_xor (page_size * 2 ^ c) (s.block w).page =
        r.pages c (omega arith) h
        ∙ sym (buddy-down k A q aligned c h)
        ∙ ap (bit_xor (page_size * 2 ^ c)) (sym r.page) in
      let lower : ltb (s.block (u c)).page (s.block w).page ≡ true =
        lt→ltb (s.block (u c)).page (s.block w).page
          (omega (arith, page_at-lt k A c h, r.page, r.pages c (omega arith) h)) in
      let plus : c + 1 ≡ suc c = omega arith in
      rw
        (
          load-ok s w l.2.1,
          get_block_buddy-first fuel r.rep c cb (omega arith) w l.2.1 of.1.0.0 (u c) (w ∷ []) at
              buddy,
          ne→== (u c) null l.1,
          load-ok s (u c) l.1,
          not_used s w r.free,
          not_used s (u c) (r.frees c (omega arith) h),
          lower,
        )
        (after (remove_page_block-second fuel r.rep c cb f (u c) w [] at of.1.0.0 (omega arith))
          λ failed t (e, rep, last, same). rw e (
            after
              (remove_page_block-only fuel rep c cb (omega (arith, last)) (u c)
                (rw (eq→== c c refl) refl) (ap PageBlock.order (same (u c)) ∙ of.0.0))
              λ failed' t' (e', rep', last', same').
                rw (e', new_page_block-created t' (s.block (u c)).page, of.1.0.0, plus)
                  (after
                    (append_one fuel rep' (omega (arith, r.small)) (omega (arith, last, last'))
                      (omega (arith, last, last')))
                    λ _ v (rep'', a).
                      next (t'.last_entry + 1) v
                        (Stair-up u c w s t t' v r h last last' same same' rep'' a)
                        (omega (arith, a.last_new, last, last')))))

  merge_buddy-Whole :
      (n depth : ℕ) (u : ℕ → Ptr) (c : ℕ) (w : Ptr) (s : FreeListHeader)
      → Stair k A u c w s
      → c + n ≡ k
      → n < depth
      → s.last_entry + n < fuel
      → s.last_entry + n < 2 ^ 32
      → Ends (λ _ t. Whole k A t) (merge_buddy fuel depth w s)
  merge_buddy-Whole n zero u c w s r e d f g = absurd (omega arith)
  merge_buddy-Whole zero (suc depth) u c w s r e d f g =
      let same : c ≡ k = omega arith in
      merge_buddy-top depth u w s (subst (λ x. Stair k A u x w s) same r) (omega arith)
  merge_buddy-Whole (suc n) (suc depth) u c w s r e d f g =
      merge_buddy-up depth u c w s r (omega arith) (omega arith) (omega arith) λ w' t r' last.
        merge_buddy-Whole n depth u (suc c) w' t r' (omega arith) (omega arith)
          (omega (arith, last)) (omega (arith, last))

  Stair-unmarked :
      (u : ℕ → Ptr) (c : ℕ) (w : Ptr) (s : FreeListHeader)
      → Pieces k A u c w s
      → Stair k A u c w (unmarked s w)
  Stair-unmarked u c w s r = record {
    rep = Rep-unmarked w r.rep;
    below = r.below;
    small = r.small;
    page = rw (eq→== w w refl) r.page;
    free = no_flags (unmarked s w) w (rw (eq→== w w refl) refl);
    pages = λ d lo hi. ground (arith, r.pages d lo hi);
    frees = λ d lo hi. elim (Bool-cases (u d == w)) [
      | inl e ↦ no_flags (unmarked s w) (u d) (rw e refl)
      | inr e ↦ rw e (r.frees d lo hi)
    ];
  }

  module _ (u : ℕ → Ptr) (c : ℕ) (w : Ptr) (s : FreeListHeader) (r : Pieces k A u c w s)
      (f : s.last_entry + k + 1 < fuel) (g : s.last_entry + k < 2 ^ 32) where
    abbrev pfn : ℕ
    pfn = page_at k A c

    abbrev cb : c < max_page_order + 1
    cb = omega (arith, r.below, r.small)

    chain_of : (xs : List Ptr) → stair k u c w c ≡ xs → Linked (nexts s) (s.list c).first xs
    chain_of xs at = subst (Linked (nexts s) (s.list c).first) at (r.rep.chain c cb)

    find_pfn_loop-piece :
        (n : ℕ) → 1 < n → (w ≢ null) × (find_pfn_loop n pfn (s.list c).first s ≡ ok w s)
    unfolding find_pfn_loop
    find_pfn_loop-piece zero h = absurd (omega arith)
    find_pfn_loop-piece (suc zero) h = absurd (omega arith)
    find_pfn_loop-piece (suc (suc n)) h = elim (dec_lt c k) [
      | yes lower ↦
          let l = chain_of (u c ∷ w ∷ []) (stair-pair k u c w lower) in
          let first : (s.block (u c)).page ≢ pfn =
            λ e. omega (arith, page_at-lt k A c lower, r.pages c (omega arith) lower, e) in
          (
            l.2.1,
            rw (
              l.0,
              ne→== (u c) null l.1,
              load-ok s (u c) l.1,
              ne→== (s.block (u c)).page pfn first,
              l.2.0,
              ne→== w null l.2.1,
              load-ok s w l.2.1,
              eq→== (s.block w).page pfn r.page,
            ),
          )
      | no top ↦
          let same : k ≡ c = omega (arith, r.below) in
          let at : stair k u c w c ≡ w ∷ [] =
            subst (λ x. stair x u c w c ≡ w ∷ []) (sym same) (stair-last c u w) in
          let l = chain_of (w ∷ []) at in
          (l.1, rw (l.0, ne→== w null l.1, load-ok s w l.1, eq→== (s.block w).page pfn r.page))
    ]

    find_block_loop-piece : (n j : ℕ) → j ≤ c → c < j + n → find_block_loop fuel n pfn j s ≡ ok w s
    unfolding find_block_loop find_pfn_in_order
    find_block_loop-piece zero j lo hi = absurd (omega arith)
    find_block_loop-piece (suc n) j lo hi = elim (dec_lt j c) [
      | yes h ↦
          rw
            (find_pfn_in_order-absent fuel r.rep pfn j (omega (arith, r.below, r.small))
              (omega arith) (subst (IsAbsent s pfn) (sym (stair-none k u c w j h)) tt))
            (find_block_loop-piece n (j + 1) (omega arith) (omega arith))
      | no h ↦
          let e : j ≡ c = omega arith in
          let found = find_pfn_loop-piece fuel (omega (arith, r.rep.started)) in
          rw (e, get_list-ok s c (omega (arith, r.below, r.small)), found.1, ne→== w null found.0)
    ]

    -- A block of 2 ^ k pages, at an address that is a multiple of its size, was split down to order
    -- c: of each order from c up there is one free block, the first half, and behind it in order c
    -- the second half, which was handed out. Then `page_free` of the second half ends, and all lists
    -- are empty but that of order k, which has one block: it is free, and has the address of the
    -- block that was split.
    pub page_free-Whole : Ends (λ _ t. Whole k A t) (page_free fuel (page_at k A c) s)
    unfolding page_free find_block_by_pfn
    page_free-Whole =
        let found = find_pfn_loop-piece fuel (omega (arith, r.rep.started)) in
        rw
          (
            find_block_loop-piece (max_page_order + 1) 0 (omega arith)
                (omega (arith, r.below, r.small)),
            ne→== w null found.0,
            mark_block_free-ok s w found.0,
          )
          (merge_buddy-Whole (k - c) merge_depth u c w (unmarked s w) (Stair-unmarked u c w s r)
            (omega (arith, r.below)) (omega (arith, r.small)) (omega arith) (omega arith))
