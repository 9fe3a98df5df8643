-- ===== src/PageAlloc/Merge.antt =====
-- `merge_buddy` on a state whose lists are in order.
use hob_os.Base.{
  ℕ, zero, suc, ◌+◌, ◌^◌, ◌≤◌, ◌<◌, ◌≡◌, ◌≢◌, refl, sym, ap, ◌∙◌, List, [], ◌∷◌, false, ◌||◌, ◌==◌,
  if◌then◌else◌, length, length-append, ne→==, eq→==, arith, Bool-cases, inl, inr, ==→ne,
}
use hob_os.Base.Run.{Cmd, pure, ◌>>=◌, ◌>>◌, Ends, ends, after, weaken}
use hob_os.PageAlloc.Block.{
  Ptr, null, PageBlock, FreeListHeader, max_page_order, block_is_used, new_page_block,
  add_block_to_order, remove_page_block,
}
use hob_os.PageAlloc.Alloc.{merge_buddy}
use hob_os.PageAlloc.Rep.{Rep, push, load-ok}
use hob_os.PageAlloc.Split.{Kept, Kept-refl, Kept-trans, Appended→Kept, append_one}
use hob_os.PageAlloc.Append.{new_page_block-created}
use hob_os.PageAlloc.Unlink.{with_list}
use hob_os.PageAlloc.Taken.{Taken, remove_page_block-Taken}
use hob_os.PageAlloc.Find.{get_block_buddy-IsOf}

-- The lists are in order, and there is no pair of blocks of the last order to merge.
pub record Ready (k : ℕ) (s : FreeListHeader) (lists : ℕ → List Ptr) : Type 0 where
  pub rep : Rep (max_page_order + 1) s lists
  pub below : k ≤ max_page_order
  pub one : length (lists max_page_order) ≤ 1
  pub empty : k < max_page_order → length (lists max_page_order) ≡ 0

-- What a merge leaves.
abbrev pub Merged : ℕ → FreeListHeader → FreeListHeader → Type 0
Merged n s t = ((lists : ℕ → List Ptr) × Rep (max_page_order + 1) t lists) × Kept n s t

Taken→Kept :
    {b k : ℕ} {lists : ℕ → List Ptr} {s t : FreeListHeader} → Taken b k lists s t → Kept 0 s t
Taken→Kept x = record {
  grown = omega (arith, x.last_entry);
  room = omega (arith, x.last_entry);
  same = λ a h. x.same a;
}

Kept-more : {n m : ℕ} {s t : FreeListHeader} → n ≤ m → Kept n s t → Kept m s t
Kept-more h x = record { grown = x.grown; room = omega (arith, x.room, h); same = x.same }

-- The blocks of the order `m` behind a merge of two blocks of order `k`
length-pushed :
    (lists : ℕ → List Ptr) (k m p : ℕ) (xs ys : List Ptr)
    → k ≢ m
    → length (push (with_list (with_list lists k xs) k ys) (k + 1) p m)
      ≡ (if m == k + 1 then length (lists m) + 1 else length (lists m))
length-pushed lists k m p xs ys ne =
    let other : (m == k) ≡ false = ne→== m k (λ e. ne (sym e)) in
    elim (Bool-cases (m == k + 1)) [
      | inl e ↦ rw (e, other) (length-append (lists m) (p ∷ []))
      | inr e ↦ rw (e, other) refl
    ]

module _ (fuel : ℕ) where
  -- The part of `merge_buddy` behind the two removals
  abbrev merge_rest : ℕ → ℕ → ℕ → Cmd FreeListHeader (Unit {0})
  merge_rest depth final_pfn order = do
    merged ← new_page_block final_pfn
    add_block_to_order fuel merged (order + 1)
    merge_buddy fuel depth merged

  -- The part of `merge_buddy` behind the tests
  abbrev merge_blocks : ℕ → ℕ → ℕ → Ptr → Ptr → Cmd FreeListHeader (Unit {0})
  merge_blocks depth final_pfn order pb buddy_pb = do
    failed ← remove_page_block fuel pb
    if failed then pure tt else do
      failed ← remove_page_block fuel buddy_pb
      if failed then pure tt else merge_rest depth final_pfn order

  -- A call of `merge_buddy` with this depth on a block of an order that the depth is enough for.
  abbrev pub IsSafe : ℕ → Type 0
  IsSafe depth =
      (k : ℕ) (s : FreeListHeader) (lists : ℕ → List Ptr)
      → Ready k s lists
      → max_page_order < k + depth
      → s.last_entry + depth < fuel
      → s.last_entry + depth < 2 ^ 32
      → (pb : Ptr) → pb ≢ null
      → (s.block pb).order ≡ k
      → Ends (λ _ t. Merged depth s t) (merge_buddy fuel depth pb s)

  module _ (depth : ℕ) (again : IsSafe depth) (k : ℕ) {s : FreeListHeader} {lists : ℕ → List Ptr}
      (ready : Ready k s lists) (deep : max_page_order < k + suc depth)
      (f : s.last_entry + suc depth < fuel) (g : s.last_entry + suc depth < 2 ^ 32) where
    abbrev kb : k < max_page_order + 1
    kb = omega (arith, ready.below)

    merge_rest-Merged :
        (final_pfn : ℕ) {t u : FreeListHeader} (x : Taken (max_page_order + 1) k lists s t)
        → Taken (max_page_order + 1) k (with_list lists k x.left) t u
        → Ends (λ _ v. Merged (suc depth) s v) (merge_rest depth final_pfn k u)
    merge_rest-Merged final_pfn {t} {u} x y =
        let two : 2 ≤ length (lists k) =
          let e : length (with_list lists k x.left k) ≡ length x.left = rw (eq→== k k refl) refl in
          omega (arith, x.fewer, y.fewer, e) in
        let lower : k ≢ max_page_order =
          λ e. let n : length (lists k) ≤ 1 = rw e ready.one in omega arith in
        let none : length (lists max_page_order) ≡ 0 = ready.empty (omega (arith, ready.below)) in
        let size = length-pushed lists k max_page_order (u.last_entry + 1) x.left y.left lower in
        let last : u.last_entry ≡ s.last_entry = y.last_entry ∙ x.last_entry in
        rw (new_page_block-created u final_pfn) (
          after
            (append_one fuel y.rep (omega (arith, ready.below)) (omega (arith, last))
              (omega (arith, last)))
            λ _ v (rep, a).
              weaken
                (again (k + 1) v _
                  (record {
                    rep = rep;
                    below = omega (arith, ready.below);
                    one = ground (arith, size);
                    empty = λ h. ground (arith, size);
                  })
                  (omega arith) (omega (arith, a.last_new)) (omega (arith, a.last_new))
                  (u.last_entry + 1) (omega arith) (rw a.new refl))
                λ _ w (l, kept). (
                  l,
                  Kept-more (omega arith) (
                      Kept-trans (Taken→Kept x)
                        (Kept-trans (Taken→Kept y) (Kept-trans (Appended→Kept a) kept))),
                ))

    merge_blocks-Merged :
        (final_pfn pb buddy_pb : ℕ)
        → pb ≢ null
        → (s.block pb).order ≡ k
        → buddy_pb ≢ null
        → (s.block buddy_pb).order ≡ k
        → Ends (λ _ t. Merged (suc depth) s t) (merge_blocks depth final_pfn k pb buddy_pb s)
    merge_blocks-Merged final_pfn pb buddy_pb np op nb ob =
        after (remove_page_block-Taken ready.rep k kb fuel pb np op (omega arith) (omega arith))
          λ failed t done. elim done [
            | inl (e, same) ↦ rw (e, same) (ends ((lists, ready.rep), Kept-refl (suc depth)))
            | inr (e, x) ↦ rw e (
                after
                  (remove_page_block-Taken x.rep k kb fuel buddy_pb nb
                    (ap PageBlock.order (x.same buddy_pb) ∙ ob) (omega (arith, x.last_entry))
                    (omega (arith, x.last_entry)))
                  λ failed' u done'. elim done' [
                    | inl (e', same') ↦
                        rw (e', same')
                          (ends (
                            (with_list lists k x.left, x.rep),
                            Kept-more (omega arith) (Taken→Kept x),
                          ))
                    | inr (e', y) ↦ rw e' (merge_rest-Merged final_pfn x y)
                  ])
          ]

  pub merge_buddy-IsSafe : (depth : ℕ) → IsSafe depth
  unfolding merge_buddy
  merge_buddy-IsSafe zero k s lists ready deep f g pb np op = absurd (omega (arith, ready.below))
  merge_buddy-IsSafe (suc depth) k s lists ready deep f g pb np op = rw (load-ok s pb np) (
      after
        (get_block_buddy-IsOf fuel ready.rep (omega arith) pb k np op (omega (arith, ready.below)))
        λ q t (same, hit). elim (Bool-cases (q == null)) [
          | inl z ↦ rw (z, same) (ends ((lists, ready.rep), Kept-refl (suc depth)))
          | inr z ↦
              let nq : q ≢ null = ==→ne q null z in
              rw (z, same, load-ok s q nq)
                (elim (Bool-cases (block_is_used (s.block pb) || block_is_used (s.block q))) [
                  | inl used ↦ rw used (ends ((lists, ready.rep), Kept-refl (suc depth)))
                  | inr free ↦
                      rw (free, op)
                        (merge_blocks-Merged depth (merge_buddy-IsSafe depth) k ready deep f g _ pb
                          q np op nq (hit nq).0)
                ])
        ])
