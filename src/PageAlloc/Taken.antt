-- ===== src/PageAlloc/Taken.antt =====
-- `remove_page_block` and the list of its order.
use hob_os.Base.{
  ℕ, suc, ◌+◌, ◌^◌, ◌≤◌, ◌<◌, ◌≡◌, ◌≢◌, refl, sym, subst, ◌∙◌, List, [], ◌∷◌, true, false, ◌⊎◌,
  ◌==◌, length, IsDistinct, update, eq→==, arith, Bool-cases, inl, inr, ==→eq, ==→ne,
}
use hob_os.Base.Run.{Ends, ends, weaken}
use hob_os.Base.Chain.{All, All-map, All-IsFresh, Linked, Linked-same}
use hob_os.PageAlloc.Block.{
  Ptr, null, FreeListHeader, remove_loop, remove_page_block, max_page_order,
}
use hob_os.PageAlloc.Rep.{nexts, IsOf, Rep, load-ok, get_list-ok, put_list-ok}
use hob_os.PageAlloc.Unlink.{
  with_list, without, All-without, IsFresh-without, IsDistinct-without, Changed, Cut,
  remove_loop-null, remove_loop-Cut,
}

-- The list of order `k` has lost at least one block, and nothing else changed but links.
pub record Taken (b k : ℕ) (lists : ℕ → List Ptr) (s t : FreeListHeader) : Type 0 where
  pub left : List Ptr
  pub rep : Rep b t (with_list lists k left)
  pub fewer : length left + 1 ≤ length (lists k)
  pub last_entry : t.last_entry ≡ s.last_entry
  pub same : (a : Ptr) → record (t.block a) { next = (s.block a).next } ≡ s.block a

module _ {b : ℕ} {s : FreeListHeader} {lists : ℕ → List Ptr} (r : Rep b s lists) (k : ℕ)
    (kb : k < b) where
  abbrev small : k ≤ max_page_order
  small = omega (arith, r.orders)

  -- A part of the blocks of order `k` is left.
  pub Changed-Rep :
      {t : FreeListHeader} (ys : List Ptr)
      → Changed k (lists k) s t
      → Linked (nexts t) (t.list k).first ys
      → (t.list k).count ≡ length ys
      → ((P : ℕ → Type 0) → All P (lists k) → All P ys)
      → IsDistinct ys
      → length ys + 1 ≤ length (lists k)
      → Rep b t (with_list lists k ys)
  Changed-Rep {t} ys ch linked count part distinct fewer = record {
    orders = r.orders;
    started = rw ch.last_entry r.started;
    chain = λ j h. elim (Bool-cases (j == k)) [
      | inl e ↦ rw (e, ==→eq j k e) linked
      | inr e ↦
          rw (e, ch.others j (==→ne j k e))
            (Linked-same (nexts s) (nexts t) (s.list j).first (lists j)
              (All-map (lists j)
                (λ a m. ch.unlinked a (
                  All-IsFresh (IsOf s k) a (lists k) (λ q. ==→ne j k e (sym m.0 ∙ q.0))
                    (r.members k kb)))
                (r.members j h))
              (r.chain j h))
    ];
    counted = λ j h. elim (Bool-cases (j == k)) [
      | inl e ↦ rw (e, ==→eq j k e) count
      | inr e ↦ rw (e, ch.others j (==→ne j k e)) (r.counted j h)
    ];
    members = λ j h.
        let kept : (a : Ptr) → IsOf s j a → IsOf t j a =
          λ a m. grind (arith, ch.same a, ch.last_entry) in
        elim (Bool-cases (j == k)) [
          | inl e ↦ rw e (
              All-map ys kept (
                part (IsOf s j)
                  (subst (λ i. All (IsOf s i) (lists k)) (sym (==→eq j k e)) (r.members k kb))))
          | inr e ↦ rw e (All-map (lists j) kept (r.members j h))
        ];
    distinct =
        λ j h. elim (Bool-cases (j == k)) [ inl e ↦ rw e distinct | inr e ↦ rw e (r.distinct j h) ];
    short = λ j h. elim (Bool-cases (j == k)) [
      | inl e ↦ rw (e, ch.last_entry) (omega (arith, r.short k kb))
      | inr e ↦ rw (e, ch.last_entry) (r.short j h)
    ];
  }

  pub Cut-Rep :
      (pb c : ℕ) (cs : List Ptr) {t : FreeListHeader}
      → lists k ≡ c ∷ cs
      → s.last_entry < 2 ^ 32
      → Cut k pb (s.list k).first c cs s t
      → Rep b t (with_list lists k (c ∷ without pb cs))
  Cut-Rep pb c cs {t} e g u =
      let d : IsDistinct (c ∷ cs) = subst IsDistinct e (r.distinct k kb) in
      let n : length (lists k) ≡ suc (length cs) = rw e refl in
      Changed-Rep (c ∷ without pb cs) (rw e u.changed) (rw u.first u.chain)
        (omega (arith, u.count, r.counted k kb, u.one_less, n, r.short k kb))
        (λ P h. let h' : All P (c ∷ cs) = subst (All P) e h in (h'.0, All-without P pb cs h'.1))
        (IsFresh-without c pb cs d.0, IsDistinct-without pb cs d.1) (omega (arith, n, u.one_less))

  Cut-Taken :
      (pb c : ℕ) (cs : List Ptr) {t : FreeListHeader}
      → lists k ≡ c ∷ cs
      → s.last_entry < 2 ^ 32
      → Cut k pb (s.list k).first c cs s t
      → Taken b k lists s t
  Cut-Taken pb c cs e g u =
      let n : length (lists k) ≡ suc (length cs) = rw e refl in
      record {
        left = c ∷ without pb cs;
        rep = Cut-Rep pb c cs e g u;
        fewer = omega (arith, n, u.one_less);
        last_entry = u.changed.last_entry;
        same = u.changed.same;
      }

  abbrev pub cleared : FreeListHeader
  cleared = record s { list = update s.list k (record { first = null; count = 0 }) }

  cleared-Changed : Changed k (lists k) s cleared
  cleared-Changed = record {
    last_entry = refl;
    others = λ j ne. ground arith;
    same = λ a. refl;
    unlinked = λ a f. refl;
  }

  pub cleared-Rep : length (lists k) ≡ 1 → Rep b cleared (with_list lists k [])
  cleared-Rep one =
      Changed-Rep [] cleared-Changed (rw (eq→== k k refl) refl) (rw (eq→== k k refl) refl)
        (λ P h. tt) tt (omega (arith, one))

  cleared-Taken : length (lists k) ≡ 1 → Taken b k lists s cleared
  cleared-Taken one = record {
    left = [];
    rep = cleared-Rep one;
    fewer = omega (arith, one);
    last_entry = refl;
    same = λ a. refl;
  }

  loop-Taken :
      (fuel pb : ℕ)
      → pb ≢ null
      → s.last_entry < fuel
      → s.last_entry < 2 ^ 32
      → (xs : List Ptr) → lists k ≡ xs
      → Ends
          (λ failed t. ((failed ≡ true) × (t ≡ s)) ⊎ ((failed ≡ false) × Taken b k lists s t))
          (remove_loop fuel k pb (s.list k).first s)
  loop-Taken fuel pb ne f g [] e =
      let first : (s.list k).first ≡ null =
        subst (Linked (nexts s) (s.list k).first) e (r.chain k kb) in
      rw (first, remove_loop-null k pb small ne s fuel (omega arith)) (ends (inl (refl, refl)))
  loop-Taken fuel pb ne f g (c ∷ cs) e =
      let n : length (lists k) ≡ suc (length cs) = rw e refl in
      weaken
        (remove_loop-Cut k pb small ne s fuel (s.list k).first c cs
          (subst (Linked (nexts s) (s.list k).first) e (r.chain k kb))
          (subst IsDistinct e (r.distinct k kb)) (omega (arith, n, r.short k kb)))
        λ failed t done. elim done [
          | inl same ↦ inl same
          | inr (e1, u) ↦ inr (e1, Cut-Taken pb c cs e g u)
        ]

  -- `remove_page_block` on a block of order k fails and changes nothing, or the list of order k has
  -- lost at least one block and is in order again.
  pub remove_page_block-Taken :
      (fuel pb : ℕ)
      → pb ≢ null
      → (s.block pb).order ≡ k
      → s.last_entry < fuel
      → s.last_entry < 2 ^ 32
      → Ends
          (λ failed t. ((failed ≡ true) × (t ≡ s)) ⊎ ((failed ≡ false) × Taken b k lists s t))
          (remove_page_block fuel pb s)
  unfolding remove_page_block
  remove_page_block-Taken fuel pb ne o f g =
      rw (load-ok s pb ne, o, get_list-ok s k small, r.counted k kb)
        (elim (Bool-cases (length (lists k) == 1)) [
          | inl one ↦
              rw (one, put_list-ok s k _ small)
                (ends (inr (refl, cleared-Taken (==→eq (length (lists k)) 1 one))))
          | inr more ↦ rw more (loop-Taken fuel pb ne f g (lists k) refl)
        ])
