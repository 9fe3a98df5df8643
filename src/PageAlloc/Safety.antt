-- ===== src/PageAlloc/Safety.antt =====
-- `get_page_order`, `get_block` and `page_alloc` on a state whose lists are in order.
use hob_os.Base.{
  ℕ, zero, suc, ◌+◌, ◌-◌, ◌*◌, ◌^◌, ◌≤◌, ◌<◌, ◌≡◌, ◌≢◌, refl, sym, ap, subst, List, true, ◌⊎◌, ◌==◌,
  ltb, ne→==, eq→==, update, arith, Bool-cases, inl, inr, ==→ne, ltb-le, ltb→lt,
}
use native.Mathlib.Decide.{dec_lt}
use hob_os.Base.Run.{ok, Ends, ends, after, weaken}
use hob_os.PageAlloc.Block.{
  Ptr, null, PageBlock, FreeListHeader, max_page_order, max_page_block, block_used, block_is_used,
}
use hob_os.PageAlloc.Alloc.{
  reduce_loop, order_loop, get_page_order, closest_loop, get_block, reduce_to_order,
  mark_block_used, page_alloc,
}
use hob_os.PageAlloc.Rep.{Rep, load-ok, store-ok}
use hob_os.PageAlloc.Lookup.{is_free, any_free, list_has_free-any_free}
use hob_os.PageAlloc.Split.{Kept, Kept-refl, Found, reduce_loop-Found}

-- `o` is the least order whose blocks have `val` pages.
abbrev pub IsOrderOf : ℕ → ℕ → Type 0
IsOrderOf val o = (val ≤ 2 ^ o) × ((j : ℕ) → j < o → 2 ^ j < val)

pub not_last : (val i m : ℕ) → val ≤ 2 ^ m → i ≤ m → ltb (2 ^ i) val ≡ true → i + 1 ≤ m
not_last val i m big im e = elim (dec_lt i m) [
  | yes h ↦ omega arith
  | no h ↦
      let same : i ≡ m = omega arith in
      absurd (omega (arith, ap (λ (t : ℕ). 2 ^ t) same, ltb→lt (2 ^ i) val e))
]

below_next :
    (val i : ℕ)
    → ltb (2 ^ i) val ≡ true
    → ((j : ℕ) → j < i → 2 ^ j < val)
    → (j : ℕ) → j < i + 1
    → 2 ^ j < val
below_next val i e below j h = elim (dec_lt j i) [
  | yes l ↦ below j l
  | no l ↦
      let same : j ≡ i = omega arith in
      omega (arith, ap (λ (t : ℕ). 2 ^ t) same, ltb→lt (2 ^ i) val e)
]

order_loop-IsOrderOf :
    (k : ℕ) (val i m : ℕ) (s : FreeListHeader)
    → val ≤ 2 ^ m
    → i ≤ m
    → m < i + k
    → ((j : ℕ) → j < i → 2 ^ j < val)
    → Ends (λ o t. (t ≡ s) × IsOrderOf val o × (o ≤ m)) (order_loop k val i s)
unfolding order_loop
order_loop-IsOrderOf zero val i m s big im f below = absurd (omega arith)
order_loop-IsOrderOf (suc k) val i m s big im f below = elim (Bool-cases (ltb (2 ^ i) val)) [
  | inl e ↦ rw e (
      order_loop-IsOrderOf k val (i + 1) m s big (not_last val i m big im e) (omega arith)
        (below_next val i e below))
  | inr e ↦ rw e (ends (refl, (ground arith, below), im))
]

-- For at most `MAX_PAGE_BLOCK` pages, `get_page_order` ends, changes nothing, and returns the
-- least order whose blocks have that many pages.
pub get_page_order-IsOrderOf :
    (nr_pages : ℕ) (s : FreeListHeader)
    → nr_pages ≤ max_page_block
    → Ends
        (λ o t. (t ≡ s) × IsOrderOf nr_pages o × (o ≤ max_page_order))
        (get_page_order nr_pages s)
unfolding get_page_order
get_page_order-IsOrderOf nr_pages s h =
    order_loop-IsOrderOf 32 nr_pages 0 max_page_order s h (omega arith) (omega arith)
      (λ j h. absurd (omega arith))

closest_loop-Ends :
    (n : ℕ) (c : ℕ) {b : ℕ} {s : FreeListHeader} {lists : ℕ → List Ptr}
    → Rep b s lists
    → c + n ≤ b
    → Ends (λ o t. (t ≡ s) × (c ≤ o) × (o ≤ c + n)) (closest_loop n c s)
unfolding closest_loop
closest_loop-Ends zero c r h = ends (refl, omega arith, omega arith)
closest_loop-Ends (suc n) c {s} {lists} r h =
    rw (list_has_free-any_free r c (omega arith)) (elim (Bool-cases (any_free s (lists c))) [
      | inl e ↦ rw e (ends (refl, omega arith, omega arith))
      | inr e ↦ rw e (
          weaken (closest_loop-Ends n (c + 1) r (omega arith))
            λ o t (e, lo, hi). (e, omega arith, omega arith))
    ])

-- A block of `t` was handed out: it is of the least order that holds the pages, it is marked as
-- used, it was free if it is a block of `s`, and no other block of `s` changed but in `next`.
pub record Allocated (nr_pages : ℕ) (s : FreeListHeader) (page : ℕ) (t : FreeListHeader)
    : Type 0 where
  pub pb : Ptr
  pub address : (t.block pb).page ≡ page
  pub least_order : IsOrderOf nr_pages (t.block pb).order
  pub in_use : block_is_used (t.block pb) ≡ true
  pub was_free : pb ≤ s.last_entry → is_free s pb ≡ true
  pub others :
      (a : Ptr)
      → a ≤ s.last_entry
      → a ≢ pb
      → record (t.block a) { next = (s.block a).next } ≡ s.block a

abbrev marked : FreeListHeader → Ptr → FreeListHeader
marked u pb = record u { block = update u.block pb (record (u.block pb) { flags = block_used }) }

mark_block_used-ok :
    (u : FreeListHeader) (pb : Ptr) → pb ≢ null → mark_block_used pb u ≡ ok tt (marked u pb)
unfolding mark_block_used
mark_block_used-ok u pb ne = rw (load-ok u pb ne) (store-ok u pb _ ne)

Allocated-marked :
    (n o : ℕ)
    → IsOrderOf n o
    → {m : ℕ} {s u : FreeListHeader} (pb : Ptr) → pb ≢ null
    → Found o m s pb u
    → Allocated n s ((marked u pb).block pb).page (marked u pb)
unfolding block_is_used
Allocated-marked n o least {s} {u} pb ne found = record {
  pb = pb;
  address = refl;
  least_order = rw (eq→== pb pb refl, (found.of_order ne).0) least;
  in_use = rw (eq→== pb pb refl);
  was_free = λ h. rw (ap PageBlock.flags (found.kept.same pb h)) at (found.free ne);
  others = λ a h d. rw (ne→== a pb d) (found.kept.same a h);
}

-- What `page_alloc` leaves.
abbrev pub AllocResult : ℕ → FreeListHeader → ℕ → FreeListHeader → Type 0
AllocResult nr_pages s page t = ((page ≡ 0) × Kept 22 s t) ⊎ Allocated nr_pages s page t

module _ (fuel : ℕ) {s : FreeListHeader} {lists : ℕ → List Ptr}
    (r : Rep (max_page_order + 1) s lists) (f : s.last_entry + 22 < fuel)
    (g : s.last_entry + 22 < 2 ^ 32) where
  get_block-Found :
      (order : ℕ) → order ≤ max_page_order → Ends (Found order 22 s) (get_block fuel order s)
  unfolding get_block reduce_to_order
  get_block-Found order h =
      after (closest_loop-Ends (max_page_order - order) order r (omega arith)) λ c t (e, lo, hi).
        let back : c ≡ (c - order) + order = omega arith in
        rw (e, ltb-le max_page_order c (omega arith))
          (weaken
            (subst
              (λ x. Ends (Found order (2 * (c - order)) s) (reduce_loop fuel (c - order) x order s))
              (sym back)
              (reduce_loop-Found fuel order (c - order) r (omega arith) (omega arith)
                (omega arith)))
            λ pb u found. record {
              kept = record {
                grown = found.kept.grown;
                room = omega (arith, found.kept.room);
                same = found.kept.same;
              };
              of_order = found.of_order;
              free = found.free;
            })

  -- In every state in which the lists of all orders are in order and 22 more block numbers fit the
  -- fuel and 32 bits, `page_alloc` ends without a fault. It returns 0 and marks nothing, or it
  -- hands out one block: of the least order that holds the pages asked for, marked as used, not in
  -- use before if it stood there before, while every other block that stood there before keeps its
  -- page, order and flags.
  pub page_alloc-safe : (nr_pages : ℕ) → Ends (AllocResult nr_pages s) (page_alloc fuel nr_pages s)
  unfolding page_alloc
  page_alloc-safe nr_pages = elim (Bool-cases (nr_pages == 0)) [
    | inl z ↦ rw z (ends (inl (refl, Kept-refl 22)))
    | inr z ↦ rw z (elim (Bool-cases (ltb max_page_block nr_pages)) [
      | inl h ↦ rw h (ends (inl (refl, Kept-refl 22)))
      | inr h ↦ rw h (
          after (get_page_order-IsOrderOf nr_pages s (ground arith)) λ o t (e, least, ho). rw e (
            after (get_block-Found o ho) λ pb u found. elim (Bool-cases (pb == null)) [
              | inl n ↦ rw n (ends (inl (refl, found.kept)))
              | inr n ↦
                  let ne : pb ≢ null = ==→ne pb null n in
                  rw (n, mark_block_used-ok u pb ne, load-ok (marked u pb) pb ne)
                    (ends (inr (Allocated-marked nr_pages o least pb ne found)))
            ]))
    ])
  ]
