-- ===== src/PageAlloc/Split.antt =====
-- `split_page_block` and `reduce_to_order`.
use hob_os.Base.{
  ℕ, zero, suc, ◌+◌, ◌-◌, ◌*◌, ◌^◌, ◌≤◌, ◌<◌, ◌≡◌, ◌≢◌, refl, List, Bool, true, false, ◌⊎◌, ◌==◌,
  if◌then◌else◌, arith, Bool-cases, inl, inr, ==→ne,
}
use hob_os.Base.Run.{Cmd, pure, ◌>>=◌, ◌>>◌, Ends, ends, after, weaken}
use hob_os.PageAlloc.Block.{
  Ptr, null, FreeListHeader, new_page_block, add_block_to_order, remove_next_free_block,
  get_buddy_pfn, load,
}
use hob_os.PageAlloc.Alloc.{split_page_block, reduce_loop}
use hob_os.PageAlloc.Rep.{IsOf, Rep, push, load-ok}
use hob_os.PageAlloc.Lookup.{is_free, get_next_free-IsOf}
use hob_os.PageAlloc.Remove.{Only, remove_next_free-Removed, Rep-Only}
use hob_os.PageAlloc.Append.{
  Appended, created, new_page_block-created, add_block-Appended, Rep-Appended, new-IsFresh,
}

-- The blocks of `s` keep all but `next`, and `t` has at most `n` more blocks.
pub record Kept (n : ℕ) (s t : FreeListHeader) : Type 0 where
  pub grown : s.last_entry ≤ t.last_entry
  pub room : t.last_entry ≤ s.last_entry + n
  pub same :
      (a : Ptr) → a ≤ s.last_entry → record (t.block a) { next = (s.block a).next } ≡ s.block a

pub Kept-refl : {s : FreeListHeader} (n : ℕ) → Kept n s s
Kept-refl n = record { grown = omega arith; room = omega arith; same = λ a h. refl }

pub Kept-trans : {n m : ℕ} {s t u : FreeListHeader} → Kept n s t → Kept m t u → Kept (n + m) s u
Kept-trans x y = record {
  grown = omega (arith, x.grown, y.grown);
  room = omega (arith, x.room, y.room);
  same = λ a h. ground (arith, x.same a h, x.grown, y.same a);
}

Only→Kept : {k : ℕ} {s t : FreeListHeader} → Only k s t → Kept 0 s t
Only→Kept o = record {
  grown = omega (arith, o.last_entry);
  room = omega (arith, o.last_entry);
  same = λ a h. o.same a;
}

pub Appended→Kept :
    {k page : ℕ} {xs : List Ptr} {s t : FreeListHeader} → Appended k page xs s t → Kept 1 s t
Appended→Kept a = record {
  grown = omega (arith, a.last_new);
  room = omega (arith, a.last_new);
  same = λ p h. a.same p (omega arith);
}

suc-sub : (k : ℕ) → suc k - 1 ≡ k
suc-sub k = omega arith

suc-add : (n k : ℕ) → suc n + k ≡ suc (n + k)
suc-add n k = omega arith

two_suc : (n : ℕ) → 2 * suc n ≡ 2 + 2 * n
two_suc n = omega arith

-- What a split leaves: a failure changes nothing.
abbrev pub Split : ℕ → FreeListHeader → (ℕ → List Ptr) → Bool → FreeListHeader → Type 0
Split k s lists failed t =
    ((failed ≡ true) × (t ≡ s))
    ⊎ ((failed ≡ false)
        × Kept 2 s t
        × Rep (suc k) t (push (push lists k (s.last_entry + 1)) k (s.last_entry + 1 + 1)))

module _ (fuel : ℕ) where
  -- A new block is made and put behind the others of its order.
  pub append_one :
      {b k page : ℕ} {s : FreeListHeader} {lists : ℕ → List Ptr}
      → Rep b s lists
      → k < b
      → s.last_entry < fuel
      → s.last_entry + 1 < 2 ^ 32
      → Ends
          (λ _ t. Rep b t (push lists k (s.last_entry + 1)) × Appended k page (lists k) s t)
          (add_block_to_order fuel (s.last_entry + 1) k (created s page))
  append_one {k} {page} {s} {lists} r h f g =
      weaken
        (add_block-Appended fuel s k page (omega (arith, r.orders)) (lists k) (r.chain k h)
          (r.distinct k h) (new-IsFresh s k (lists k) (r.members k h)) (omega (arith, r.short k h)))
        λ _ t ap. (Rep-Appended r h g ap, ap)

  -- The two buddies that `split_page_block` makes of the order `k`.
  abbrev buddies : ℕ → ℕ → Cmd FreeListHeader Bool
  buddies k base_addr = do
    pb ← new_page_block base_addr
    add_block_to_order fuel pb k
    v ← load pb
    pb ← new_page_block (get_buddy_pfn v)
    add_block_to_order fuel pb k
    pure false

  -- The second half of `split_page_block`.
  abbrev split_rest : ℕ → ℕ → Cmd FreeListHeader Bool
  split_rest k base_addr = do
    failed ← remove_next_free_block (suc k)
    if failed then pure true else buddies k base_addr

  buddies-Kept :
      {b : ℕ} {t : FreeListHeader} {lists : ℕ → List Ptr}
      → Rep b t lists
      → (k : ℕ) → k < b
      → t.last_entry + 2 < fuel
      → t.last_entry + 2 < 2 ^ 32
      → (base : ℕ)
      → Ends
          (λ failed u.
            (failed ≡ false)
            × Kept 2 t u
            × Rep b u (push (push lists k (t.last_entry + 1)) k (t.last_entry + 1 + 1)))
          (buddies k base t)
  buddies-Kept {b} {t} {lists} r k kb f g base = rw (new_page_block-created t base) (
      after (append_one r kb (omega arith) (omega arith)) λ _ u (r', a).
        rw
          (
            load-ok u (t.last_entry + 1) (omega arith),
            new_page_block-created u (get_buddy_pfn (u.block (t.last_entry + 1))),
          )
          (after (append_one r' kb (omega (arith, a.last_new)) (omega (arith, a.last_new)))
            λ _ v (r'', a').
              ends (refl, Kept-trans (Appended→Kept a) (Appended→Kept a'), rw a.last_new at r'')))

  module _ {b : ℕ} {s : FreeListHeader} {lists : ℕ → List Ptr} (r : Rep b s lists) (k : ℕ)
      (kb : suc k < b) (f : s.last_entry + 2 < fuel) (g : s.last_entry + 2 < 2 ^ 32) where
    split_rest-Split : (base : ℕ) → Ends (Split k s lists) (split_rest k base s)
    split_rest-Split base = after (remove_next_free-Removed r (suc k) kb) λ failed t done.
        elim done [
          | inl (e, same) ↦ rw e (ends (inl (refl, same)))
          | inr (e, only) ↦ rw e (
              weaken
                (buddies-Kept (Rep-Only r (suc k) kb only) k (omega arith)
                  (omega (arith, only.last_entry)) (omega (arith, only.last_entry)) base)
                λ v u (no_fail, kept, rep).
                  inr (no_fail, Kept-trans (Only→Kept only) kept, rw only.last_entry at rep))
        ]

    -- In a state whose lists are in order, with room for two more blocks, `split_page_block` on
    -- the order k + 1 ends without a fault. If it fails, it has changed nothing. If not, two new
    -- blocks stand at the end of the list of order k, the lists of the orders up to k are in order
    -- with them, and the blocks from before keep their page, order and flags.
    pub split_page_block-Split : Ends (Split k s lists) (split_page_block fuel (suc k) s)
    unfolding split_page_block
    split_page_block-Split = after (get_next_free-IsOf r (suc k) kb) λ pb t (e, found).
        rw (e, suc-sub k)
          (elim (Bool-cases (pb == null)) [
            | inl n ↦ rw n (split_rest-Split 0)
            | inr n ↦ rw (n, load-ok s pb (==→ne pb null n)) (split_rest-Split (s.block pb).page)
          ])

-- What a search for a block of an order leaves: the block that it returns is free.
pub record Found (order n : ℕ) (s : FreeListHeader) (pb : Ptr) (t : FreeListHeader) : Type 0 where
  pub kept : Kept n s t
  pub of_order : pb ≢ null → IsOf t order pb
  pub free : pb ≢ null → is_free t pb ≡ true

module _ (fuel target : ℕ) where
  pub reduce_loop-Found :
      (n : ℕ) {b : ℕ} {s : FreeListHeader} {lists : ℕ → List Ptr}
      → Rep b s lists
      → n + target < b
      → s.last_entry + 2 * n < fuel
      → s.last_entry + 2 * n < 2 ^ 32
      → Ends (Found target (2 * n) s) (reduce_loop fuel n (n + target) target s)
  unfolding reduce_loop
  reduce_loop-Found zero {s} r h f g =
      weaken (get_next_free-IsOf r target (omega arith)) λ pb t (e, found).
        rw e
          (record { kept = Kept-refl 0; of_order = λ ne. (found ne).0; free = λ ne. (found ne).1 })
  reduce_loop-Found (suc n) {b} {s} {lists} r h f g = rw (suc-add n target) (
      after (split_page_block-Split fuel r (n + target) (omega arith) (omega arith) (omega arith))
        λ failed t done. elim done [
          | inl (e, same) ↦
              rw (e, same)
                (ends (record {
                  kept = Kept-refl (2 * suc n);
                  of_order = λ ne. absurd (ne refl);
                  free = λ ne. absurd (ne refl);
                }))
          | inr (e, kept, rep) ↦
              rw (e, suc-sub (n + target))
                (weaken
                  (reduce_loop-Found n rep (omega arith) (omega (arith, kept.room))
                    (omega (arith, kept.room)))
                  λ pb u found. record {
                    kept = rw (two_suc n) (Kept-trans kept found.kept);
                    of_order = found.of_order;
                    free = found.free;
                  })
        ])
