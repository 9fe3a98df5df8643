-- ===== src/PageAlloc/Stuck.antt =====
-- `page_alloc` where the free block of an order is the first of several.
use hob_os.Base.{
  ℕ, zero, suc, ◌+◌, ◌-◌, ◌≤◌, ◌<◌, ◌≡◌, ◌≢◌, refl, ap, List, [], ◌∷◌, true, false, ◌==◌, length,
  ne→==, arith, Bool-cases, inl, inr, ==→ne, ltb-le,
}
use native.Mathlib.Decide.{dec_lt}
use hob_os.Base.Run.{ok, Ends-eq}
use hob_os.PageAlloc.Block.{
  Ptr, null, FreeListHeader, max_page_order, max_page_block, remove_free_loop,
  remove_next_free_block,
}
use hob_os.PageAlloc.Alloc.{
  reduce_loop, closest_loop, get_block, reduce_to_order, split_page_block, page_alloc,
}
use hob_os.PageAlloc.Rep.{Rep, IsOf, load-ok, get_list-ok}
use hob_os.PageAlloc.Lookup.{
  is_free, any_free, nth, nth-ne, All-nth, get_nth-nth, list_has_free-any_free, get_next_free-IsOf,
}
use hob_os.PageAlloc.Remove.{nexts-nth, first-nth}
use hob_os.PageAlloc.Safety.{IsOrderOf, get_page_order-IsOrderOf}

not_free_nth :
    (s : FreeListHeader) (ys : List Ptr) (i : ℕ)
    → any_free s ys ≡ false
    → i < length ys
    → is_free s (nth ys i) ≡ false
unfolding any_free nth
not_free_nth s [] i h l = absurd (omega arith)
not_free_nth s (y ∷ ys) zero h l = ground arith
not_free_nth s (y ∷ ys) (suc i) h l = not_free_nth s ys i (ground arith) (omega arith)

IsOrderOf-unique : (n o o' : ℕ) → IsOrderOf n o → IsOrderOf n o' → o ≡ o'
IsOrderOf-unique n o o' h h' = elim (dec_lt o o') [
  | yes l ↦ absurd (omega (arith, h'.1 o l))
  | no l ↦ elim (dec_lt o' o) [ yes l' ↦ absurd (omega (arith, h.1 o' l')) | no l' ↦ omega arith ]
]

-- `o` is the order of the request, and `c` the first order from there on with a free block.
module _ {s : FreeListHeader} {lists : ℕ → List Ptr} (r : Rep (max_page_order + 1) s lists)
    (o c : ℕ) (x y : Ptr) (ys : List Ptr) (at : lists c ≡ x ∷ y ∷ ys)
    (first_free : is_free s x ≡ true) (rest_used : any_free s (y ∷ ys) ≡ false) (oc : o < c)
    (small : c ≤ max_page_order)
    (none_below : (j : ℕ) → o ≤ j → j < c → any_free s (lists j) ≡ false) where
  abbrev cb : c < max_page_order + 1
  cb = omega arith

  remove_free_loop-fails : (n : ℕ) → n < length (lists c) → remove_free_loop n c s ≡ ok true s
  unfolding remove_free_loop nth
  remove_free_loop-fails zero h = refl
  remove_free_loop-fails (suc i) h =
      let l = r.chain c cb in
      let e0 : (s.list c).first ≡ nth (lists c) 0 =
        first-nth s (s.list c).first (lists c) l (omega arith) in
      let o0 = All-nth (IsOf s c) (lists c) 0 (r.members c cb) (omega arith) in
      let used : is_free s (nth (lists c) (suc i)) ≡ false =
        let h' : suc i < length (x ∷ y ∷ ys) = rw at at h in
        rw at (not_free_nth s (y ∷ ys) i rest_used (omega arith)) in
      rw
        (
          get_list-ok s c small,
          e0,
          load-ok s (nth (lists c) 0) (nth-ne r c cb 0 (omega arith)),
          o0.0,
          get_nth-nth r c cb i (omega arith),
          load-ok s (nth (lists c) i) (nth-ne r c cb i (omega arith)),
          nexts-nth s (s.list c).first (lists c) i l h,
          load-ok s (nth (lists c) (suc i)) (nth-ne r c cb (suc i) h),
          used,
        )
        (remove_free_loop-fails i (omega arith))

  remove_fails : remove_next_free_block c s ≡ ok true s
  unfolding remove_next_free_block
  remove_fails =
      let two : 2 ≤ length (lists c) = rw at (omega arith) in
      rw
        (
          get_list-ok s c small,
          r.counted c cb,
          ne→== (length (lists c)) 0 (omega arith),
          ne→== (length (lists c)) 1 (omega arith),
        )
        (remove_free_loop-fails (length (lists c) - 1) (omega arith))

  closest_loop-c : (n j : ℕ) → o ≤ j → j ≤ c → c ≤ j + n → closest_loop n j s ≡ ok c s
  unfolding closest_loop any_free
  closest_loop-c zero j oj jc cn = ap (λ k. ok k s) (omega arith)
  closest_loop-c (suc n) j oj jc cn =
      rw (list_has_free-any_free r j (omega arith)) (elim (dec_lt j c) [
        | yes l ↦
            rw (none_below j oj l)
              (closest_loop-c n (j + 1) (omega arith) (omega arith) (omega arith))
        | no l ↦ let same : j ≡ c = omega arith in rw (same, at, first_free)
      ])

  reduce_loop-fails : (fuel n : ℕ) → reduce_loop fuel (suc n) c o s ≡ ok null s
  unfolding reduce_loop split_page_block
  reduce_loop-fails fuel n =
      let (pb, t, e, found) = Ends-eq (get_next_free-IsOf r c cb) in
      rw (e, found.0)
        (elim (Bool-cases (pb == null)) [
          | inl z ↦ rw (z, remove_fails)
          | inr z ↦ rw (z, load-ok s pb (==→ne pb null z), remove_fails)
        ])

  -- The lists are in order, a request has the order `o`, and the first order from there on with a
  -- free block is `c`, above `o`. If the free block of that order is the first of several, and the
  -- others are in use, then `page_alloc` returns 0 and changes nothing, although the free block is
  -- larger than the request.
  pub page_alloc-stuck :
      (fuel nr_pages : ℕ)
      → nr_pages ≢ 0
      → nr_pages ≤ max_page_block
      → IsOrderOf nr_pages o
      → page_alloc fuel nr_pages s ≡ ok 0 s
  unfolding page_alloc get_block reduce_to_order
  page_alloc-stuck fuel nr_pages nz big least =
      let (o', t, e, found) = Ends-eq (get_page_order-IsOrderOf nr_pages s big) in
      let diff : c - o ≡ suc (c - o - 1) = omega arith in
      rw (
        ne→== nr_pages 0 nz,
        ltb-le max_page_block nr_pages big,
        e,
        found.0,
        IsOrderOf-unique nr_pages o' o found.1 least,
        closest_loop-c (max_page_order - o) o (omega arith) (omega arith) (omega arith),
        ltb-le max_page_order c small,
        diff,
        reduce_loop-fails fuel (c - o - 1),
      )
