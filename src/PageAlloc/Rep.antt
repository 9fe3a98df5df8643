-- ===== src/PageAlloc/Rep.antt =====
-- What the state of the allocator stands for: the blocks of each order, in order.
use hob_os.Base.{
  ℕ, ◌+◌, ◌≤◌, ◌<◌, ◌≡◌, ◌≢◌, List, [], ◌∷◌, ◌++◌, ◌==◌, if◌then◌else◌, length, IsDistinct, update,
  ne→==, arith,
}
use hob_os.Base.Run.{ok}
use hob_os.Base.Chain.{All, Linked}
use hob_os.PageAlloc.Block.{
  Ptr, null, PageBlock, FreeList, FreeListHeader, load, store, set_next, get_block_free_list,
  put_free_list, max_page_order,
}

abbrev pub nexts : FreeListHeader → ℕ → ℕ
nexts s a = (s.block a).next

abbrev pub IsOf : FreeListHeader → ℕ → Ptr → Type 0
IsOf s k a = ((s.block a).order ≡ k) × (a ≤ s.last_entry)

-- The lists of the orders below `b` hold the blocks `lists`.
pub record Rep (b : ℕ) (s : FreeListHeader) (lists : ℕ → List Ptr) : Type 0 where
  pub orders : b ≤ max_page_order + 1
  pub started : s.last_entry ≢ null
  pub chain : (k : ℕ) → k < b → Linked (nexts s) (s.list k).first (lists k)
  pub counted : (k : ℕ) → k < b → (s.list k).count ≡ length (lists k)
  pub members : (k : ℕ) → k < b → All (IsOf s k) (lists k)
  pub distinct : (k : ℕ) → k < b → IsDistinct (lists k)
  pub short : (k : ℕ) → k < b → length (lists k) ≤ s.last_entry

-- The block `x` behind the blocks of order `k`.
abbrev pub push : (ℕ → List Ptr) → ℕ → Ptr → ℕ → List Ptr
push lists k x j = if j == k then lists j ++ x ∷ [] else lists j

module _ (s : FreeListHeader) where
  pub load-ok : (p : Ptr) → p ≢ null → load p s ≡ ok (s.block p) s
  unfolding load
  load-ok p ne = rw (ne→== p null ne)

  pub store-ok :
      (p : Ptr) (v : PageBlock)
      → p ≢ null
      → store p v s ≡ ok tt (record s { block = update s.block p v })
  unfolding store
  store-ok p v ne = rw (ne→== p null ne)

  pub set_next-ok :
      (p q : Ptr)
      → p ≢ null
      → set_next p q s
        ≡ ok tt (record s { block = update s.block p (record (s.block p) { next = q }) })
  unfolding set_next
  set_next-ok p q ne = rw (load-ok p ne) (store-ok p (record (s.block p) { next = q }) ne)

  pub get_list-ok : (k : ℕ) → k ≤ max_page_order → get_block_free_list k s ≡ ok (s.list k) s
  unfolding get_block_free_list
  get_list-ok k h = ground arith

  pub put_list-ok :
      (k : ℕ) (l : FreeList)
      → k ≤ max_page_order
      → put_free_list k l s ≡ ok tt (record s { list = update s.list k l })
  unfolding put_free_list
  put_list-ok k l h = ground arith
