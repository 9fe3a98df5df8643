-- ===== src/PageAlloc/Newest.antt =====
-- `remove_next_free_block` where the newest block is free and of the order asked for.
use hob_os.Base.{
  ℕ, ◌+◌, ◌≤◌, ◌<◌, ◌≡◌, refl, subst, List, [], ◌∷◌, true, false, ◌&&◌, ◌==◌, length, eq→==, arith,
}
use hob_os.Base.Run.{ok, Ends, ends}
use hob_os.Base.Chain.{All, Linked}
use hob_os.Base.Lists.{IsFresh}
use hob_os.PageAlloc.Block.{
  Ptr, null, FreeListHeader, max_page_order, block_is_used, get_next_free_block,
  remove_next_free_block, remove_free_loop,
}
use hob_os.PageAlloc.Rep.{nexts, IsOf, Rep, load-ok, get_list-ok, put_list-ok, set_next-ok}
use hob_os.PageAlloc.Lookup.{is_free, nth, get_next_free-eq, get_nth-nth}
use hob_os.PageAlloc.Unlink.{with_list}
use hob_os.PageAlloc.Taken.{Changed-Rep, cleared-Rep}

-- What the removal of the last block leaves: the blocks `xs` in its list
pub record Popped (k : ℕ) (lists : ℕ → List Ptr) (xs : List Ptr) (s t : FreeListHeader)
    : Type 0 where
  pub rep : Rep (max_page_order + 1) t (with_list lists k xs)
  pub last_entry : t.last_entry ≡ s.last_entry
  pub same : (a : Ptr) → record (t.block a) { next = (s.block a).next } ≡ s.block a

module _ {s : FreeListHeader} {lists : ℕ → List Ptr} (r : Rep (max_page_order + 1) s lists) (k : ℕ)
    (small : k ≤ max_page_order) where
  abbrev kb : k < max_page_order + 1
  kb = omega arith

  pub get_next_free-newest :
      (s.block s.last_entry).order ≡ k
      → is_free s s.last_entry ≡ true
      → get_next_free_block k s ≡ ok s.last_entry s
  get_next_free-newest o f =
      let e : (((s.block s.last_entry).order == k) && is_free s s.last_entry) ≡ true =
        ground (arith, o, f) in
      rw (get_next_free-eq r k kb, e) refl

  pub remove_next_free-only :
      (w : Ptr)
      → lists k ≡ w ∷ []
      → is_free s w ≡ true
      → Ends (λ failed t. (failed ≡ false) × Popped k lists [] s t) (remove_next_free_block k s)
  unfolding remove_next_free_block
  remove_next_free-only w at f =
      let l : Linked (nexts s) (s.list k).first (w ∷ []) =
        subst (Linked (nexts s) (s.list k).first) at (r.chain k kb) in
      let n : length (lists k) ≡ 1 = rw at refl in
      let used : block_is_used (s.block w) ≡ false = ground (arith, f) in
      rw
        (
          get_list-ok s k small,
          r.counted k kb,
          n,
          l.0,
          load-ok s w l.1,
          used,
          put_list-ok s k _ small,
        )
        (ends (refl, record { rep = cleared-Rep r k kb n; last_entry = refl; same = λ a. refl }))

  pub remove_next_free-pair :
      (x w : Ptr)
      → lists k ≡ x ∷ w ∷ []
      → is_free s w ≡ true
      → Ends
          (λ failed t. (failed ≡ false) × Popped k lists (x ∷ []) s t)
          (remove_next_free_block k s)
  unfolding remove_next_free_block remove_free_loop nth
  remove_next_free-pair x w at f =
      let l : Linked (nexts s) (s.list k).first (x ∷ w ∷ []) =
        subst (Linked (nexts s) (s.list k).first) at (r.chain k kb) in
      let of = subst (All (IsOf s k)) at (r.members k kb) in
      let n : length (lists k) ≡ 2 = rw at refl in
      let at0 : nth (lists k) 0 ≡ x = rw at refl in
      rw
        (
          get_list-ok s k small,
          r.counted k kb,
          n,
          get_list-ok s k small,
          l.0,
          load-ok s x l.1,
          of.0.0,
          get_nth-nth r k kb 0 (omega (arith, n)),
          at0,
          load-ok s x l.1,
          l.2.0,
          load-ok s w l.2.1,
          f,
          set_next-ok s x null l.1,
          get_list-ok _ k small,
          put_list-ok _ k _ small,
        )
        (ends (
          refl,
          record {
            rep =
                Changed-Rep r k kb (x ∷ [])
                  (record {
                    last_entry = refl;
                    others = λ j ne. ground arith;
                    same = λ a. ground arith;
                    unlinked = λ a fr. let fr' = subst (IsFresh a) at fr in ground arith;
                  })
                  (rw (eq→== k k refl) l.0, l.1, ground arith)
                  (rw (eq→== k k refl) (omega (arith, r.counted k kb, n)))
                  (λ P h. ((subst (All P) at h).0, tt)) (tt, tt) (omega (arith, n));
            last_entry = refl;
            same = λ a. ground arith;
          },
        ))
