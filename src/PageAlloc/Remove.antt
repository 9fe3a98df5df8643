-- ===== src/PageAlloc/Remove.antt =====
-- `remove_next_free_block` and the list of its order.
use hob_os.Base.{
  ℕ, zero, suc, ◌-◌, ◌≤◌, ◌<◌, ◌≡◌, ◌≢◌, refl, List, [], ◌∷◌, Bool, true, false, ◌⊎◌, ◌==◌, length,
  arith, Bool-cases, inl, inr,
}
use hob_os.Base.Run.{Ends, ends}
use hob_os.Base.Chain.{All-map, Linked, Linked-same}
use hob_os.PageAlloc.Block.{
  Ptr, null, FreeListHeader, block_is_used, remove_free_loop, remove_next_free_block,
  max_page_order,
}
use hob_os.PageAlloc.Rep.{nexts, IsOf, Rep, load-ok, get_list-ok, put_list-ok, set_next-ok}
use hob_os.PageAlloc.Lookup.{is_free, nth, All-nth, get_nth-nth, nth-ne}

-- `t` differs from `s` at most in the list of order `k`, and in `next` of its blocks.
pub record Only (k : ℕ) (s t : FreeListHeader) : Type 0 where
  pub last_entry : t.last_entry ≡ s.last_entry
  pub others : (j : ℕ) → j ≢ k → t.list j ≡ s.list j
  pub same : (a : Ptr) → record (t.block a) { next = (s.block a).next } ≡ s.block a
  pub unlinked : (a : Ptr) → (s.block a).order ≢ k → nexts t a ≡ nexts s a

pub nexts-nth :
    (s : FreeListHeader) (p : Ptr) (xs : List Ptr) (i : ℕ)
    → Linked (nexts s) p xs
    → suc i < length xs
    → nexts s (nth xs i) ≡ nth xs (suc i)
unfolding nth
nexts-nth s p [] i l h = absurd (omega arith)
nexts-nth s p (x ∷ []) i l h = absurd (omega arith)
nexts-nth s p (x ∷ y ∷ ys) zero l h = l.2.0
nexts-nth s p (x ∷ y ∷ ys) (suc i) l h = nexts-nth s (nexts s x) (y ∷ ys) i l.2 (omega arith)

pub first-nth :
    (s : FreeListHeader) (p : Ptr) (xs : List Ptr)
    → Linked (nexts s) p xs
    → 0 < length xs
    → p ≡ nth xs 0
unfolding nth
first-nth s p [] l h = absurd (omega arith)
first-nth s p (x ∷ xs) l h = l.0

-- What a removal leaves: a failure changes nothing.
abbrev pub Removed : ℕ → FreeListHeader → Bool → FreeListHeader → Type 0
Removed k s failed t = ((failed ≡ true) × (t ≡ s)) ⊎ ((failed ≡ false) × Only k s t)

module _ {b : ℕ} {s : FreeListHeader} {lists : ℕ → List Ptr} (r : Rep b s lists) (k : ℕ)
    (kb : k < b) where
  abbrev small : k ≤ max_page_order
  small = omega (arith, r.orders)

  abbrev xs : List Ptr
  xs = lists k

  remove_free_loop-Removed : (n : ℕ) → n < length xs → Ends (Removed k s) (remove_free_loop n k s)
  unfolding remove_free_loop
  remove_free_loop-Removed zero h = ends (inl (refl, refl))
  remove_free_loop-Removed (suc i) h =
      let l = r.chain k kb in
      let e0 : (s.list k).first ≡ nth xs 0 = first-nth s (s.list k).first xs l (omega arith) in
      let o0 : (s.block (nth xs 0)).order ≡ k =
        (All-nth (IsOf s k) xs 0 (r.members k kb) (omega arith)).0 in
      let oi : (s.block (nth xs i)).order ≡ k =
        (All-nth (IsOf s k) xs i (r.members k kb) (omega arith)).0 in
      rw
        (
          get_list-ok s k small,
          e0,
          load-ok s (nth xs 0) (nth-ne r k kb 0 (omega arith)),
          o0,
          get_nth-nth r k kb i (omega arith),
          load-ok s (nth xs i) (nth-ne r k kb i (omega arith)),
          nexts-nth s (s.list k).first xs i l h,
          load-ok s (nth xs (suc i)) (nth-ne r k kb (suc i) h),
        )
        (elim (Bool-cases (is_free s (nth xs (suc i)))) [
          | inl f ↦
              rw
                (
                  f,
                  set_next-ok s (nth xs i) null (nth-ne r k kb i (omega arith)),
                  get_list-ok _ k small,
                  put_list-ok _ k _ small,
                )
                (ends (
                  inr (
                    refl,
                    record {
                      last_entry = refl;
                      others = λ j ne. ground arith;
                      same = λ a. ground arith;
                      unlinked = λ a ne. ground arith;
                    },
                  )))
          | inr f ↦ rw f (remove_free_loop-Removed i (omega arith))
        ])

  -- `remove_next_free_block` fails and changes nothing, or changes only the list of its order.
  pub remove_next_free-Removed : Ends (Removed k s) (remove_next_free_block k s)
  unfolding remove_next_free_block
  remove_next_free-Removed =
      rw (get_list-ok s k small, r.counted k kb)
        (elim (Bool-cases (length xs == 0)) [
          | inl z ↦ rw z (ends (inl (refl, refl)))
          | inr z ↦ rw z (elim (Bool-cases (length xs == 1)) [
            | inl o ↦
                rw
                  (
                    o,
                    first-nth s (s.list k).first xs (r.chain k kb) (ground arith),
                    load-ok s (nth xs 0) (nth-ne r k kb 0 (ground arith)),
                  )
                  (elim (Bool-cases (block_is_used (s.block (nth xs 0)))) [
                    | inl u ↦ rw u (ends (inl (refl, refl)))
                    | inr u ↦
                        rw (u, put_list-ok s k _ small)
                          (ends (
                            inr (
                              refl,
                              record {
                                last_entry = refl;
                                others = λ j ne. ground arith;
                                same = λ a. refl;
                                unlinked = λ a ne. refl;
                              },
                            )))
                  ])
            | inr o ↦ rw o (remove_free_loop-Removed (length xs - 1) (ground arith))
          ])
        ])

  -- The lists of the other orders are as before.
  pub Rep-Only : {t : FreeListHeader} → Only k s t → Rep k t lists
  Rep-Only {t} o = record {
    orders = omega (arith, r.orders);
    started = rw o.last_entry r.started;
    chain = λ j h. rw (o.others j (omega arith)) (
        Linked-same (nexts s) (nexts t) (s.list j).first (lists j)
          (All-map (lists j) (λ a m. o.unlinked a (omega (arith, m.0))) (r.members j (omega arith)))
          (r.chain j (omega arith)));
    counted = λ j h. rw (o.others j (omega arith)) (r.counted j (omega arith));
    members = λ j h.
        All-map (lists j) (λ a m. grind (arith, o.same a, o.last_entry))
          (r.members j (omega arith));
    distinct = λ j h. r.distinct j (omega arith);
    short = λ j h. rw o.last_entry (r.short j (omega arith));
  }
