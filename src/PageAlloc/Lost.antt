-- ===== src/PageAlloc/Lost.antt =====
-- `page_free` where the buddy of the block is the first of several blocks of their order.
use hob_os.Base.{
  ℕ, zero, suc, ◌+◌, ◌^◌, ◌≤◌, ◌<◌, ◌≡◌, ◌≢◌, refl, sym, subst, ap, ◌∙◌, List, ◌∷◌, true, false,
  ◌==◌, IsFresh, IsDistinct, ne→==, eq→==, arith, Bool-cases, inl, inr, ==→ne,
}
use native.Mathlib.Decide.{dec_lt}
use hob_os.Base.Run.{ok, Ends, ends, after}
use hob_os.Base.Chain.{All, All-IsFresh, Linked}
use hob_os.PageAlloc.Block.{
  Ptr, null, PageBlock, FreeListHeader, max_page_order, block_is_used, get_buddy_pfn,
}
use hob_os.PageAlloc.Alloc.{
  find_pfn_loop, find_pfn_in_order, find_block_loop, find_block_by_pfn, get_block_buddy,
  merge_buddy, page_free,
}
use hob_os.PageAlloc.Rep.{nexts, IsOf, Rep, load-ok, get_list-ok}
use hob_os.PageAlloc.Lookup.{is_free}
use hob_os.PageAlloc.Unlink.{with_list}
use hob_os.PageAlloc.Find.{IsAbsent, find_pfn_loop-absent}
use hob_os.PageAlloc.Release.{unmarked, mark_block_free-ok, Rep-unmarked}
use hob_os.PageAlloc.Second.{remove_page_block-first, remove_page_block-second}

-- A block `y` of order `k` stands behind its free buddy `x`, which is the first of the order, and
-- before a third block.
module _ (fuel pfn : ℕ) {s : FreeListHeader} {lists : ℕ → List Ptr}
    (r : Rep (max_page_order + 1) s lists) (k : ℕ) (small : k ≤ max_page_order) (x y z : Ptr)
    (zs : List Ptr) (at : lists k ≡ x ∷ y ∷ z ∷ zs) (page : (s.block y).page ≡ pfn)
    (not_below : (i : ℕ) → i < k → IsAbsent s pfn (lists i)) (other : (s.block x).page ≢ pfn)
    (buddy : get_buddy_pfn (s.block y) ≡ (s.block x).page) (free : is_free s x ≡ true)
    (f : s.last_entry + 1 < fuel) (g : s.last_entry < 2 ^ 32) where
  abbrev kb : k < max_page_order + 1
  kb = omega arith

  linked : Linked (nexts s) (s.list k).first (x ∷ y ∷ z ∷ zs)
  linked = subst (Linked (nexts s) (s.list k).first) at (r.chain k kb)

  -- The pages of `s` are searched.
  find_pfn_loop-second : (n : ℕ) → 1 < n → find_pfn_loop n pfn (s.list k).first s ≡ ok y s
  unfolding find_pfn_loop
  find_pfn_loop-second zero h = absurd (omega arith)
  find_pfn_loop-second (suc zero) h = absurd (omega arith)
  find_pfn_loop-second (suc (suc n)) h =
      let l = linked in
      rw (
        l.0,
        ne→== x null l.1,
        load-ok s x l.1,
        ne→== (s.block x).page pfn other,
        l.2.0,
        ne→== y null l.2.1,
        load-ok s y l.2.1,
        eq→== (s.block y).page pfn page,
      )

  find_block_loop-second : (n j : ℕ) → j ≤ k → k < j + n → find_block_loop fuel n pfn j s ≡ ok y s
  unfolding find_block_loop find_pfn_in_order
  find_block_loop-second zero j lo hi = absurd (omega arith)
  find_block_loop-second (suc n) j lo hi = elim (dec_lt j k) [
    | yes h ↦
        rw
          (
            get_list-ok s j (omega arith),
            find_pfn_loop-absent fuel pfn s (s.list j).first (lists j) (r.chain j (omega arith))
                (not_below j h) (omega (arith, r.short j (omega arith))),
          )
          (find_block_loop-second n (j + 1) (omega arith) (omega arith))
    | no h ↦
        let e : j ≡ k = omega arith in
        rw (
          e,
          get_list-ok s k small,
          find_pfn_loop-second fuel (omega (arith, r.started)),
          ne→== y null linked.2.1,
        )
  ]

  abbrev u : FreeListHeader
  u = unmarked s y

  y_order : (s.block y).order ≡ k
  y_order = (subst (All (IsOf s k)) at (r.members k kb)).1.0.0

  x_order : (s.block x).order ≡ k
  x_order = (subst (All (IsOf s k)) at (r.members k kb)).0.0

  same_buddy : get_buddy_pfn (u.block y) ≡ (s.block x).page
  unfolding get_buddy_pfn
  same_buddy = rw (eq→== y y refl) buddy

  x_page : (u.block x).page ≡ (s.block x).page
  x_page = ground arith

  find_pfn_loop-first :
      (n p : ℕ) → 0 < n → (s.block x).page ≡ p → find_pfn_loop n p (s.list k).first u ≡ ok x u
  unfolding find_pfn_loop
  find_pfn_loop-first zero p h e = absurd (omega arith)
  find_pfn_loop-first (suc n) p h e =
      let l = linked in
      rw (l.0, ne→== x null l.1, load-ok u x l.1, eq→== (u.block x).page p (x_page ∙ e))

  get_block_buddy-first : get_block_buddy fuel y u ≡ ok x u
  unfolding get_block_buddy find_pfn_in_order
  get_block_buddy-first =
      let o : (u.block y).order ≡ k = rw (eq→== y y refl) y_order in
      rw (load-ok u y linked.2.1, same_buddy)
        (rw (o, get_list-ok u k small)
          (find_pfn_loop-first fuel (s.block x).page (omega arith) refl))

  y_left : (i : ℕ) → i ≤ max_page_order → IsFresh y (with_list lists k (x ∷ z ∷ zs) i)
  y_left i h = elim (Bool-cases (i == k)) [
    | inl e ↦ let d = subst IsDistinct at (r.distinct k kb) in rw e (λ q. d.0.0 (sym q), d.1.0)
    | inr e ↦ rw e (
        All-IsFresh (IsOf s i) y (lists i) (λ m. ==→ne i k e (sym m.0 ∙ y_order))
          (r.members i (omega arith)))
  ]

  y_free : block_is_used (u.block y) ≡ false
  unfolding block_is_used
  y_free = rw (eq→== y y refl) refl

  x_free : block_is_used (u.block x) ≡ false
  x_free =
      let ne : x ≢ y = (subst IsDistinct at (r.distinct k kb)).0.0 in
      rw (ne→== x y ne) (ground (arith, free))

  -- What is left without `y`
  abbrev Lost : FreeListHeader → Type 0
  Lost t =
      Rep (max_page_order + 1) t (with_list lists k (x ∷ z ∷ zs))
      × (t.last_entry ≡ s.last_entry)
      × ((t.block y).flags ≡ 0)
      × ((i : ℕ) → i ≤ max_page_order → IsFresh y (with_list lists k (x ∷ z ∷ zs) i))

  merge_buddy-Lost : (depth : ℕ) → Ends (λ _ t. Lost t) (merge_buddy fuel (suc depth) y u)
  unfolding merge_buddy
  merge_buddy-Lost depth =
      let ny : y ≢ null = linked.2.1 in
      let nx : x ≢ null = linked.1 in
      rw (load-ok u y ny, get_block_buddy-first, ne→== x null nx, load-ok u x nx, y_free, x_free)
        (after
          (remove_page_block-second fuel (Rep-unmarked y r) k kb f x y (z ∷ zs) at
            (rw (eq→== y y refl) y_order) g)
          λ failed t (e, rep, last, same).
            let left : with_list lists k (x ∷ z ∷ zs) k ≡ x ∷ z ∷ zs = rw (eq→== k k refl) refl in
            let of_x : (t.block x).order ≡ k =
              ground (arith, ap PageBlock.order (same x), x_order) in
            let of_y : (t.block y).flags ≡ 0 =
              ap PageBlock.flags (same y) ∙ rw (eq→== y y refl) refl in
            rw (e, remove_page_block-first fuel rep k kb (omega (arith, last)) x z zs left of_x)
              (ends (rep, last, of_y, y_left)))

  -- A block `y` of order k stands in its list behind its free buddy, which is the first of the list,
  -- and before a third block; no block of a lower order has its page. Then `page_free` of this page
  -- ends, and the lists are those from before less `y`: no block was made, and `y`, marked as free,
  -- stands in no list.
  pub page_free-lost :
      Ends
        (λ _ t.
          Rep (max_page_order + 1) t (with_list lists k (x ∷ z ∷ zs))
          × (t.last_entry ≡ s.last_entry)
          × ((t.block y).flags ≡ 0)
          × ((i : ℕ) → i ≤ max_page_order → IsFresh y (with_list lists k (x ∷ z ∷ zs) i)))
        (page_free fuel pfn s)
  unfolding page_free find_block_by_pfn
  page_free-lost =
      let ny : y ≢ null = linked.2.1 in
      rw
        (
          find_block_loop-second (max_page_order + 1) 0 (omega arith) (omega arith),
          ne→== y null ny,
          mark_block_free-ok s y ny,
        )
        (merge_buddy-Lost 12)
