-- ===== src/PageAlloc/Second.antt =====
-- `remove_page_block` on the first and on the second of several blocks.
use hob_os.Base.{
  ℕ, zero, suc, ◌+◌, ◌^◌, ◌≤◌, ◌<◌, ◌≡◌, ◌≢◌, refl, sym, subst, List, [], ◌∷◌, true, false, length,
  IsFresh, IsDistinct, ne→==, eq→==, arith,
}
use hob_os.Base.Run.{ok, Ends, ends}
use hob_os.Base.Chain.{Linked}
use hob_os.PageAlloc.Block.{
  Ptr, null, FreeListHeader, max_page_order, remove_loop, remove_page_block,
}
use hob_os.PageAlloc.Rep.{nexts, Rep, load-ok, get_list-ok, put_list-ok, set_next-ok}
use hob_os.PageAlloc.Unlink.{with_list, cut_at, cut_at-Cut, remove_loop-null}
use hob_os.PageAlloc.Taken.{Cut-Rep, cleared-Rep}

module _ (k : ℕ) (small : k ≤ max_page_order) (s : FreeListHeader) where
  -- The walk looks only at the successors: a block that is none of them is not found.
  remove_loop-fresh :
      (n : ℕ) (pb p x : Ptr) (ys : List Ptr)
      → pb ≢ null
      → Linked (nexts s) p (x ∷ ys)
      → IsFresh pb ys
      → length ys + 1 < n
      → remove_loop n k pb p s ≡ ok true s
  unfolding remove_loop
  remove_loop-fresh zero pb p x ys ne l fr f = absurd (omega arith)
  remove_loop-fresh (suc n) pb p x [] ne l fr f = rw (
    l.0,
    ne→== x null l.1,
    load-ok s x l.1,
    l.2,
    ne→== null pb (λ e. ne (sym e)),
    remove_loop-null k pb small ne s n (omega arith),
  )
  remove_loop-fresh (suc n) pb p x (y ∷ ys) ne l fr f =
      rw (l.0, ne→== x null l.1, load-ok s x l.1, l.2.0, ne→== y pb (λ e. fr.0 (sym e)))
        (remove_loop-fresh n pb y y ys ne (refl, l.2.1, l.2.2) fr.1 (omega arith))

  remove_loop-second :
      (n pb p x : Ptr) (ne : pb ≢ null) (ys : List Ptr)
      → Linked (nexts s) p (x ∷ pb ∷ ys)
      → 0 < n
      → remove_loop n k pb p s ≡ ok false (cut_at k pb small ne s x)
  unfolding remove_loop
  remove_loop-second zero pb p x ne ys l f = absurd (omega arith)
  remove_loop-second (suc n) pb p x ne ys l f = rw (
    l.0,
    ne→== x null l.1,
    load-ok s x l.1,
    l.2.0,
    eq→== pb pb refl,
    get_list-ok s k small,
    put_list-ok s k _ small,
    load-ok _ pb ne,
    set_next-ok _ x _ l.1,
    set_next-ok _ pb _ ne,
  )

module _ (fuel : ℕ) {b : ℕ} {s : FreeListHeader} {lists : ℕ → List Ptr} (r : Rep b s lists) (k : ℕ)
    (kb : k < b) (f : s.last_entry + 1 < fuel) where
  abbrev small : k ≤ max_page_order
  small = omega (arith, r.orders)

  -- The first of several blocks cannot be removed.
  pub remove_page_block-first :
      (x z : Ptr) (zs : List Ptr)
      → lists k ≡ x ∷ z ∷ zs
      → (s.block x).order ≡ k
      → remove_page_block fuel x s ≡ ok true s
  unfolding remove_page_block
  remove_page_block-first x z zs e o =
      let l : Linked (nexts s) (s.list k).first (x ∷ z ∷ zs) =
        subst (Linked (nexts s) (s.list k).first) e (r.chain k kb) in
      let d : IsDistinct (x ∷ z ∷ zs) = subst IsDistinct e (r.distinct k kb) in
      let n : length (lists k) ≡ suc (suc (length zs)) = rw e refl in
      rw
        (
          load-ok s x l.1,
          o,
          get_list-ok s k small,
          r.counted k kb,
          ne→== (length (lists k)) 1 (omega (arith, n)),
        )
        (remove_loop-fresh k small s fuel x (s.list k).first x (z ∷ zs) l.1 l d.0
          (omega (arith, n, r.short k kb)))

  -- The second of several blocks is removed.
  pub remove_page_block-second :
      (x y : Ptr) (zs : List Ptr)
      → lists k ≡ x ∷ y ∷ zs
      → (s.block y).order ≡ k
      → s.last_entry < 2 ^ 32
      → Ends
          (λ failed t.
            (failed ≡ false)
            × Rep b t (with_list lists k (x ∷ zs))
            × (t.last_entry ≡ s.last_entry)
            × ((a : Ptr) → record (t.block a) { next = (s.block a).next } ≡ s.block a))
          (remove_page_block fuel y s)
  unfolding remove_page_block
  remove_page_block-second x y zs e o g =
      let l : Linked (nexts s) (s.list k).first (x ∷ y ∷ zs) =
        subst (Linked (nexts s) (s.list k).first) e (r.chain k kb) in
      let d : IsDistinct (x ∷ y ∷ zs) = subst IsDistinct e (r.distinct k kb) in
      let n : length (lists k) ≡ suc (suc (length zs)) = rw e refl in
      let ny : y ≢ null = l.2.1 in
      let cut = cut_at-Cut k y small ny s (s.list k).first x zs l d in
      let rep : Rep b (cut_at k y small ny s x) (with_list lists k (x ∷ zs)) =
        subst (λ ys. Rep b (cut_at k y small ny s x) (with_list lists k (x ∷ ys)))
          (rw (eq→== y y refl) refl) (Cut-Rep r k kb y x (y ∷ zs) e g cut) in
      rw
        (
          load-ok s y ny,
          o,
          get_list-ok s k small,
          r.counted k kb,
          ne→== (length (lists k)) 1 (omega (arith, n)),
          remove_loop-second k small s fuel y (s.list k).first x ny zs l (omega arith),
        )
        (ends (refl, rep, cut.changed.last_entry, cut.changed.same))

  -- The only block is removed.
  pub remove_page_block-only :
      (x : Ptr)
      → lists k ≡ x ∷ []
      → (s.block x).order ≡ k
      → Ends
          (λ failed t.
            (failed ≡ false)
            × Rep b t (with_list lists k [])
            × (t.last_entry ≡ s.last_entry)
            × (t.block ≡ s.block))
          (remove_page_block fuel x s)
  unfolding remove_page_block
  remove_page_block-only x e o =
      let l : Linked (nexts s) (s.list k).first (x ∷ []) =
        subst (Linked (nexts s) (s.list k).first) e (r.chain k kb) in
      let n : length (lists k) ≡ 1 = rw e refl in
      rw (load-ok s x l.1, o, get_list-ok s k small, r.counted k kb, n, put_list-ok s k _ small)
        (ends (refl, cleared-Rep r k kb n, refl, refl))
