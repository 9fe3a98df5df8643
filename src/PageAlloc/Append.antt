-- ===== src/PageAlloc/Append.antt =====
-- `new_page_block` followed by `add_block_to_order`: a new free block behind those of its order.
use hob_os.Base.{
  ℕ, zero, suc, ◌+◌, ◌%◌, ◌^◌, ◌≤◌, ◌<◌, ◌≡◌, ◌≢◌, refl, sym, ◌∙◌, List, [], ◌∷◌, ◌++◌, ◌==◌,
  length, length-append, IsDistinct, IsFresh, update, ne→==, arith, Bool-cases, inl, inr, ==→eq,
  ==→ne,
}
use hob_os.Base.Run.{ok, Ends, ends}
use hob_os.Base.Chain.{
  All, All-map, All-append, All-last, Linked, Linked-same, Linked-snoc, Linked-ne, All-IsFresh,
  IsDistinct-snoc, last, ne-last, All-ne,
}
use hob_os.PageAlloc.Block.{
  Ptr, null, FreeListHeader, new_page_block, last_loop, add_block_to_order, max_page_order,
}
use hob_os.PageAlloc.Rep.{
  nexts, IsOf, Rep, push, load-ok, store-ok, set_next-ok, get_list-ok, put_list-ok,
}

last_loop-last :
    (k : ℕ) (s : FreeListHeader) (p x : Ptr) (xs : List Ptr)
    → Linked (nexts s) p (x ∷ xs)
    → length xs < k
    → last_loop k p s ≡ ok (last x xs) s
unfolding last_loop last
last_loop-last zero s p x xs l f = absurd (omega arith)
last_loop-last (suc k) s p x [] l f = rw (l.0, load-ok s x l.1, l.2)
last_loop-last (suc k) s p x (y ∷ ys) l f =
    rw (l.0, load-ok s x l.1, l.2.0, ne→== y null l.2.1)
      (last_loop-last k s y y ys (refl, l.2.1, l.2.2) (omega arith))

-- The state behind `new_page_block`.
abbrev pub created : FreeListHeader → ℕ → FreeListHeader
created s page = record s {
  last_entry = s.last_entry + 1;
  block =
      update s.block (s.last_entry + 1)
        (record (s.block (s.last_entry + 1)) { page = page; next = null; flags = 0 });
}

pub new_page_block-created :
    (s : FreeListHeader) (page : ℕ) → new_page_block page s ≡ ok (s.last_entry + 1) (created s page)
unfolding new_page_block
new_page_block-created s page = refl

-- The state behind the write of the new block's order.
abbrev with_order : FreeListHeader → ℕ → ℕ → FreeListHeader
with_order s page k = record (created s page) {
  block =
      update (created s page).block (s.last_entry + 1)
        (record ((created s page).block (s.last_entry + 1)) { order = k });
}

-- `s'` has one block more than `s`, free, with the given page, and last of the order `k`, whose
-- blocks in `s` are `xs`.
pub record Appended (k page : ℕ) (xs : List Ptr) (s s' : FreeListHeader) : Type 0 where
  pub last_new : s'.last_entry ≡ s.last_entry + 1
  pub count : (s'.list k).count ≡ ((s.list k).count + 1) % 2 ^ 32
  pub others : (j : ℕ) → j ≢ k → s'.list j ≡ s.list j
  pub new : s'.block (s.last_entry + 1) ≡ record { page = page; order = k; flags = 0; next = null }
  pub same :
      (a : Ptr) → a ≢ s.last_entry + 1 → record (s'.block a) { next = (s.block a).next } ≡ s.block a
  pub unlinked : (a : Ptr) → a ≢ s.last_entry + 1 → IsFresh a xs → nexts s' a ≡ nexts s a
  pub chain : Linked (nexts s') (s'.list k).first (xs ++ (s.last_entry + 1) ∷ [])

module _ (fuel : ℕ) (s : FreeListHeader) (k page : ℕ) (small : k ≤ max_page_order) where
  abbrev pb : Ptr
  pb = s.last_entry + 1

  nexts-created : (a : Ptr) → a ≢ pb → nexts (created s page) a ≡ nexts s a
  nexts-created a ne = ground arith

  add_block-empty :
      (s.list k).first ≡ null
      → Ends (λ _ s'. Appended k page [] s s') (add_block_to_order fuel pb k (created s page))
  unfolding add_block_to_order
  add_block-empty e =
      rw
        (
          load-ok (created s page) pb (omega arith),
          store-ok (created s page) pb _ (omega arith),
          get_list-ok _ k small,
          e,
          put_list-ok _ k _ small,
          get_list-ok _ k small,
          put_list-ok _ k _ small,
        )
        (ends (record {
          last_new = refl;
          count = ground arith;
          others = λ j ne. ground arith;
          new = ground arith;
          same = λ a ne. ground arith;
          unlinked = λ a ne f. ground arith;
          chain = ground arith;
        }))

  add_block-cons :
      (x : Ptr) (xs : List Ptr)
      → Linked (nexts s) (s.list k).first (x ∷ xs)
      → IsDistinct (x ∷ xs)
      → IsFresh pb (x ∷ xs)
      → length xs < fuel
      → Ends (λ _ s'. Appended k page (x ∷ xs) s s') (add_block_to_order fuel pb k (created s page))
  unfolding add_block_to_order
  add_block-cons x xs l d f fu =
      let away : All (λ a. a ≢ pb) (x ∷ xs) = All-ne pb (x ∷ xs) f in
      let ln : last x xs ≢ null =
        All-last (λ a. a ≢ null) x xs (Linked-ne (nexts s) (s.list k).first (x ∷ xs) l) in
      let lp : last x xs ≢ pb = All-last (λ a. a ≢ pb) x xs away in
      rw
        (
          load-ok (created s page) pb (omega arith),
          store-ok (created s page) pb _ (omega arith),
          get_list-ok _ k small,
          l.0,
          ne→== x null l.1,
          last_loop-last fuel (with_order s page k) x x xs
              (Linked-same (nexts s) (nexts (with_order s page k)) x (x ∷ xs)
                (All-map (x ∷ xs) (λ a ne. ground arith) away) (refl, l.1, l.2))
              fu,
          set_next-ok _ (last x xs) pb ln,
          get_list-ok _ k small,
          put_list-ok _ k _ small,
        )
        (ends (record {
          last_new = refl;
          count = ground arith;
          others = λ j ne. ground arith;
          new = ground arith;
          same = λ a ne. ground arith;
          unlinked = λ a ne fr. ground (arith, ne-last {a = a} x xs fr);
          chain =
              Linked-snoc (nexts s) _ pb _ x xs (ground arith) d f (omega arith) (ground arith)
                (ground arith) (λ a n m. ground arith);
        }))

  -- `new_page_block` and `add_block_to_order` append one free block to its order's list.
  pub add_block-Appended :
      (xs : List Ptr)
      → Linked (nexts s) (s.list k).first xs
      → IsDistinct xs
      → IsFresh pb xs
      → length xs < fuel
      → Ends (λ _ s'. Appended k page xs s s') (add_block_to_order fuel pb k (created s page))
  add_block-Appended [] l d f fu = add_block-empty l
  add_block-Appended (x ∷ xs) l d f fu = add_block-cons x xs l d f (omega arith)

pub new-IsFresh :
    (s : FreeListHeader) (k : ℕ) (xs : List Ptr) → All (IsOf s k) xs → IsFresh (s.last_entry + 1) xs
new-IsFresh s k xs m =
    All-IsFresh (λ a. a ≤ s.last_entry) _ xs (omega arith) (All-map xs (λ a h. h.1) m)

module _ {b k page : ℕ} {s s' : FreeListHeader} {lists : ℕ → List Ptr} (r : Rep b s lists)
    (kb : k < b) (fits : s.last_entry + 1 < 2 ^ 32) (ap : Appended k page (lists k) s s') where
  -- An old block keeps its order.
  IsOf-old : (j : ℕ) (a : Ptr) → IsOf s j a → IsOf s' j a
  IsOf-old j a m = grind (arith, ap.same a, ap.last_new)

  nexts-other : (j : ℕ) → j ≢ k → (a : Ptr) → IsOf s j a → nexts s' a ≡ nexts s a
  nexts-other j ne a m =
      ap.unlinked a (omega arith)
        (All-IsFresh (IsOf s k) a (lists k) (λ h. ne (sym m.0 ∙ h.0)) (r.members k kb))

  -- The list of each order, with the new block behind those of order `k`.
  pub Rep-Appended : Rep b s' (push lists k (s.last_entry + 1))
  Rep-Appended = record {
    orders = r.orders;
    started = omega (arith, ap.last_new);
    chain = λ j h. elim (Bool-cases (j == k)) [
      | inl e ↦ rw (e, ==→eq j k e) ap.chain
      | inr e ↦
          rw (e, ap.others j (==→ne j k e))
            (Linked-same (nexts s) (nexts s') (s.list j).first (lists j)
              (All-map (lists j) (nexts-other j (==→ne j k e)) (r.members j h)) (r.chain j h))
    ];
    counted = λ j h. elim (Bool-cases (j == k)) [
      | inl e ↦
          rw (e, ==→eq j k e, length-append (lists k) ((s.last_entry + 1) ∷ []))
            (omega (arith, ap.count, r.counted k kb, r.short k kb))
      | inr e ↦ rw (e, ap.others j (==→ne j k e)) (r.counted j h)
    ];
    members = λ j h. elim (Bool-cases (j == k)) [
      | inl e ↦ rw e (
          All-append (IsOf s' j) (lists j) ((s.last_entry + 1) ∷ [])
            (All-map (lists j) (IsOf-old j) (r.members j h))
            ((rw (ap.new, ==→eq j k e), omega (arith, ap.last_new)), tt))
      | inr e ↦ rw e (All-map (lists j) (IsOf-old j) (r.members j h))
    ];
    distinct = λ j h. elim (Bool-cases (j == k)) [
      | inl e ↦
          rw e (
            IsDistinct-snoc (lists j) _ (r.distinct j h)
              (new-IsFresh s j (lists j) (r.members j h)))
      | inr e ↦ rw e (r.distinct j h)
    ];
    short = λ j h. elim (Bool-cases (j == k)) [
      | inl e ↦ rw e (
          omega
            (arith, length-append (lists j) ((s.last_entry + 1) ∷ []), r.short j h, ap.last_new))
      | inr e ↦ rw e (omega (arith, r.short j h, ap.last_new))
    ];
  }
