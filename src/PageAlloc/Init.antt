-- ===== src/PageAlloc/Init.antt =====
-- `init_free_list` for memory of one block, as at the start of the kernel.
use hob_os.Base.{ℕ, ◌≤◌, ◌<◌, ◌≡◌, List, [], ◌∷◌, ◌==◌, if◌then◌else◌}
use hob_os.Base.Run.{Run}
use hob_os.PageAlloc.Block.{Ptr, null, FreeList, FreeListHeader, max_page_order}
use hob_os.PageAlloc.Rep.{Rep}

abbrev pub no_blocks : FreeList
no_blocks = record { first = null; count = 0 }

-- The lists with one block, the first, of order `k`
abbrev pub one_block : ℕ → ℕ → List Ptr
one_block k j = if j == k then 1 ∷ [] else []

module _ (fuel addr : ℕ) where
  module _ (k : ℕ) (small : k < max_page_order) (s : FreeListHeader)
      (empty : (j : ℕ) → j ≤ max_page_order → s.list j ≡ no_blocks) (f : 0 < fuel) where
    abbrev reset : FreeListHeader
    reset = record s { last_entry = null }
