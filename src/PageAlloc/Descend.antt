-- ===== src/PageAlloc/Descend.antt =====
-- `split_page_block` and `reduce_to_order` from one free block, where the newest block is the last of
-- the order that is split.
use Prim.Native.Nat.{bit_xor}
use hob_os.Base.{
  ℕ, zero, suc, ◌+◌, ◌-◌, ◌*◌, ◌^◌, ◌≤◌, ◌<◌, ◌≡◌, ◌≢◌, refl, sym, ap, subst, ◌∙◌, List, [], ◌∷◌,
  true, false, ◌==◌, ltb, lt→ltb, ltb-le, if◌then◌else◌, update, ne→==, arith, Bool-cases, inl, inr,
  ==→eq, ==→ne,
}
use native.Mathlib.Decide.{dec_lt}
use hob_os.Base.Run.{Ends, ends, after, weaken}
use hob_os.Base.Chain.{All}
use hob_os.Base.Lists.{IsDistinct}
use hob_os.PageAlloc.Block.{
  Ptr, null, PageBlock, FreeListHeader, max_page_order, page_size, get_buddy_pfn,
  remove_next_free_block,
}
use hob_os.PageAlloc.Alloc.{split_page_block, reduce_loop}
use hob_os.PageAlloc.Rep.{IsOf, Rep, push, load-ok}
use hob_os.PageAlloc.Append.{Appended, new_page_block-created}
use hob_os.PageAlloc.Split.{append_one}
use hob_os.PageAlloc.Unlink.{with_list}
use hob_os.PageAlloc.Stair.{
  Rep-ext, stair, same_flags, no_flags, Stair, stair-pair, stair-one, stair-last, stair-down,
  buddy-up,
}
use hob_os.PageAlloc.Newest.{
  Popped, get_next_free-newest, remove_next_free-only, remove_next_free-pair,
}

-- The last block of a staircase is in the list of its order.
module _ {k A : ℕ} {u : ℕ → Ptr} {c : ℕ} {w : Ptr} {s : FreeListHeader}
    (r : Stair k A u c w s) where
  last_order : IsOf s c w
  last_order =
      let cb : c < max_page_order + 1 = omega (arith, r.below, r.small) in
      elim (dec_lt c k) [
        | yes h ↦ (subst (All (IsOf s c)) (stair-pair k u c w h) (r.rep.members c cb)).1.0
        | no h ↦
            let same : k ≡ c = omega (arith, r.below) in
            let at : stair k u c w c ≡ w ∷ [] =
              subst (λ x. stair x u c w c ≡ w ∷ []) (sym same) (stair-last c u w) in
            (subst (All (IsOf s c)) at (r.rep.members c cb)).0
      ]

  first_made : (d : ℕ) → c ≤ d → d < k → u d ≤ s.last_entry
  first_made d lo hi =
      let db : d < max_page_order + 1 = omega (arith, r.small) in
      elim (dec_lt c d) [
        | yes h ↦ (subst (All (IsOf s d)) (stair-one k u c w d h hi) (r.rep.members d db)).0.1
        | no h ↦
            let same : d ≡ c = omega arith in
            let at : stair k u c w d ≡ u d ∷ w ∷ [] = rw same (stair-pair k u c w (omega arith)) in
            (subst (All (IsOf s d)) at (r.rep.members d db)).0.1
      ]

  pub first_other : (d : ℕ) → c ≤ d → d < k → u d ≢ w
  first_other d lo hi e =
      let cb : c < max_page_order + 1 = omega (arith, r.below, r.small) in
      elim (dec_lt c d) [
        | yes h ↦
            let of : IsOf s d (u d) =
              (subst (All (IsOf s d)) (stair-one k u c w d h hi)
                (r.rep.members d (omega (arith, r.small)))).0 in
            omega (arith, of.0, ap (λ a. (s.block a).order) e, last_order.0)
        | no h ↦
            let same : d ≡ c = omega arith in
            let e' : u c ≡ w = ap u (sym same) ∙ e in
            (subst IsDistinct (stair-pair k u c w (omega arith)) (r.rep.distinct c cb)).0.0 e'
      ]

  abbrev left : List Ptr
  left = if ltb c k then u c ∷ [] else []

  pop-Popped :
      Ends
        (λ failed t. (failed ≡ false) × Popped c (stair k u c w) left s t)
        (remove_next_free_block c s)
  pop-Popped =
      let small : c ≤ max_page_order = omega (arith, r.below, r.small) in
      elim (dec_lt c k) [
        | yes h ↦
            let l : ltb c k ≡ true = lt→ltb c k h in
            rw l (remove_next_free-pair r.rep c small (u c) w (stair-pair k u c w h) r.free)
        | no h ↦
            let l : ltb c k ≡ false = ltb-le c k (omega arith) in
            let same : k ≡ c = omega (arith, r.below) in
            let at : stair k u c w c ≡ w ∷ [] =
              subst (λ x. stair x u c w c ≡ w ∷ []) (sym same) (stair-last c u w) in
            rw l (remove_next_free-only r.rep c small w at r.free)
      ]

-- A block that is older than the new one keeps its page and flags.
Appended-old :
    {k page : ℕ} {xs : List Ptr} {s t : FreeListHeader}
    → Appended k page xs s t
    → (a : Ptr) → a ≤ s.last_entry
    → ((t.block a).page ≡ (s.block a).page) × ((t.block a).flags ≡ (s.block a).flags)
Appended-old a x h =
    (ap PageBlock.page (a.same x (omega arith)), ap PageBlock.flags (a.same x (omega arith)))

module _ (fuel k A q : ℕ) (aligned : A ≡ q * (page_size * 2 ^ k)) where
  -- The state behind one split: `t` behind the removal, `v` and `x` behind the two insertions
  Stair-down :
      (u : ℕ → Ptr) (c : ℕ) (w : Ptr) (s t v x : FreeListHeader) (r : Stair k A u (suc c) w s)
      → Popped (suc c) (stair k u (suc c) w) (left r) s t
      → {xs ys : List Ptr} → Appended c (s.block w).page xs t v
      → Appended c (get_buddy_pfn (v.block (t.last_entry + 1))) ys v x
      → Rep (max_page_order + 1) x (
          push
            (push (with_list (stair k u (suc c) w) (suc c) (left r)) c (t.last_entry + 1))
            c
            (v.last_entry + 1))
      → Stair k A (update u c (t.last_entry + 1)) c (v.last_entry + 1) x
  unfolding get_buddy_pfn
  Stair-down u c w s t v x r p a a' rep =
      let h : c < k = omega (arith, r.below) in
      let n = t.last_entry + 1 in
      let new = Appended-old a' n (omega (arith, a.last_new)) in
      let old : (d : ℕ)
          → suc c ≤ d
          → d < k
          → ((x.block (u d)).page ≡ (s.block (u d)).page)
            × ((x.block (u d)).flags ≡ (s.block (u d)).flags) =
        λ d lo hi.
          let made = first_made r d lo hi in
          let on_a = Appended-old a (u d) (omega (arith, p.last_entry)) in
          let on_a' = Appended-old a' (u d) (omega (arith, a.last_new, p.last_entry)) in
          let page : (x.block (u d)).page ≡ (s.block (u d)).page =
            on_a'.0 ∙ on_a.0 ∙ ap PageBlock.page (p.same (u d)) in
          let flags : (x.block (u d)).flags ≡ (s.block (u d)).flags =
            on_a'.1 ∙ on_a.1 ∙ ap PageBlock.flags (p.same (u d)) in
          (page, flags) in
      record {
        rep = Rep-ext (stair-down k u c w n (v.last_entry + 1) h) rep;
        below = omega arith;
        small = r.small;
        page =
            ap PageBlock.page a'.new
            ∙ ap get_buddy_pfn a.new
            ∙ ap (bit_xor (page_size * 2 ^ c)) r.page
            ∙ buddy-up k A q aligned c h;
        free = no_flags x (v.last_entry + 1) (ap PageBlock.flags a'.new);
        pages = λ d lo hi. elim (Bool-cases (d == c)) [
          | inl e ↦ rw (e, ==→eq d c e) (new.0 ∙ ap PageBlock.page a.new ∙ r.page)
          | inr e ↦
              let up : suc c ≤ d = omega (arith, ==→ne d c e) in
              rw e ((old d up hi).0 ∙ r.pages d up hi)
        ];
        frees = λ d lo hi. elim (Bool-cases (d == c)) [
          | inl e ↦ rw e (no_flags x n (new.1 ∙ ap PageBlock.flags a.new))
          | inr e ↦
              let up : suc c ≤ d = omega (arith, ==→ne d c e) in
              rw e (same_flags s x (u d) (old d up hi).1 (r.frees d up hi))
        ];
      }

  split_page_block-Stair :
      (u : ℕ → Ptr) (c : ℕ) (s : FreeListHeader)
      → Stair k A u (suc c) s.last_entry s
      → s.last_entry + 2 < fuel
      → s.last_entry + 2 < 2 ^ 32
      → Ends
          (λ failed t.
            (failed ≡ false)
            × Stair k A (update u c (s.last_entry + 1)) c t.last_entry t
            × (t.last_entry ≡ s.last_entry + 2))
          (split_page_block fuel (suc c) s)
  unfolding split_page_block
  split_page_block-Stair u c s r f g =
      let w = s.last_entry in
      let pred : suc c - 1 ≡ c = omega arith in
      let small : c < max_page_order + 1 = omega (arith, r.below, r.small) in
      rw
        (
          get_next_free-newest r.rep (suc c) (omega (arith, r.below, r.small)) (last_order r).0
              r.free,
          ne→== w null r.rep.started,
          load-ok s w r.rep.started,
          pred,
        )
        (after (pop-Popped r) λ failed t (e, p).
          rw (e, new_page_block-created t (s.block w).page)
            (after
              (append_one fuel p.rep small (omega (arith, p.last_entry))
                (omega (arith, p.last_entry)))
              λ _ v (rep, a).
                rw
                  (
                    load-ok v (t.last_entry + 1) (omega arith),
                    new_page_block-created v (get_buddy_pfn (v.block (t.last_entry + 1))),
                  )
                  (after
                    (append_one fuel rep small (omega (arith, a.last_new, p.last_entry))
                      (omega (arith, a.last_new, p.last_entry)))
                    λ _ x (rep', a'). ends (
                      refl,
                      subst (λ i. Stair k A (update u c (i + 1)) c x.last_entry x) p.last_entry
                          (subst (λ i. Stair k A (update u c (t.last_entry + 1)) c i x)
                            (sym a'.last_new) (Stair-down u c w s t v x r p a a' rep')),
                      omega (arith, a'.last_new, a.last_new, p.last_entry),
                    ))))

  -- The splits down to the order `o`: the newest block is handed out.
  pub reduce_loop-Stair :
      (n o : ℕ) (u : ℕ → Ptr) (s : FreeListHeader)
      → Stair k A u (n + o) s.last_entry s
      → s.last_entry + 2 * n < fuel
      → s.last_entry + 2 * n < 2 ^ 32
      → Ends
          (λ pb t.
            (u' : ℕ → Ptr) × (pb ≡ t.last_entry)
            × Stair k A u' o t.last_entry t
            × (t.last_entry ≡ s.last_entry + 2 * n))
          (reduce_loop fuel n (n + o) o s)
  unfolding reduce_loop
  reduce_loop-Stair zero o u s r f g =
      let at : 0 + o ≡ o = omega arith in
      let r' : Stair k A u o s.last_entry s = subst (λ c. Stair k A u c s.last_entry s) at r in
      rw
        (get_next_free-newest r'.rep o (omega (arith, r'.below, r'.small)) (last_order r').0
          r'.free)
        (ends (u, refl, r', omega arith))
  reduce_loop-Stair (suc n) o u s r f g =
      let at : suc n + o ≡ suc (n + o) = omega arith in
      let pred : suc (n + o) - 1 ≡ n + o = omega arith in
      rw at (
        after
          (split_page_block-Stair u (n + o) s (subst (λ c. Stair k A u c s.last_entry s) at r)
            (omega arith) (omega arith))
          λ failed t (e, r', last).
            rw (e, pred)
              (weaken
                (reduce_loop-Stair n o (update u (n + o) (s.last_entry + 1)) t r'
                  (omega (arith, last)) (omega (arith, last)))
                λ pb v (u', newest, r'', last'). (u', newest, r'', omega (arith, last, last'))))
