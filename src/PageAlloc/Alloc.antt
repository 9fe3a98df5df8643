-- ===== src/PageAlloc/Alloc.antt =====
-- page_alloc.c, lines 295-590: splitting, allocation, release with merging, initialisation.
use hob_os.Base.{
  ℕ, zero, suc, ◌+◌, ◌-◌, ◌/◌, ◌%◌, ◌^◌, Bool, true, false, ◌||◌, ◌==◌, ltb, if◌then◌else◌,
}
use hob_os.Base.Run.{Cmd, out_of_fuel, pure, gets, modify, ◌>>=◌, ◌>>◌}
use hob_os.PageAlloc.Block.{
  max_page_order, page_block, max_page_block, page_size, block_used, Ptr, null, FreeListHeader,
  get_block_free_list, load, store, set_next, get_buddy_pfn, block_phy_offset, block_is_used,
  list_has_free_block, new_page_block, remove_next_free_block, get_next_free_block,
  add_block_to_order, remove_page_block,
}

-- `nr_pages` is at most `MAX_PAGE_BLOCK` where it is called; the first argument is fuel.
unfoldable pub order_loop : ℕ → ℕ → ℕ → Cmd FreeListHeader ℕ
order_loop zero val i = λ _. out_of_fuel
order_loop (suc k) val i = if ltb (page_block i) val then order_loop k val (i + 1) else pure i

unfoldable pub get_page_order : ℕ → Cmd FreeListHeader ℕ
unfolding order_loop
get_page_order nr_pages = order_loop 32 nr_pages 0

-- The rounds left are `MAX_PAGE_ORDER - curr_order`; the value is the final `curr_order`.
unfoldable pub closest_loop : ℕ → ℕ → Cmd FreeListHeader ℕ
closest_loop zero curr_order = pure curr_order
closest_loop (suc n) curr_order = do
  has ← list_has_free_block curr_order
  if has then pure curr_order else closest_loop n (curr_order + 1)

unfoldable pub mark_block_used : Ptr → Cmd FreeListHeader (Unit {0})
mark_block_used pb = do v ← load pb; store pb (record v { flags = block_used })

unfoldable pub mark_block_free : Ptr → Cmd FreeListHeader (Unit {0})
mark_block_free pb = do v ← load pb; store pb (record v { flags = 0 })

unfoldable pub find_pfn_loop : ℕ → ℕ → Ptr → Cmd FreeListHeader Ptr
find_pfn_loop zero pfn pb = λ _. out_of_fuel
find_pfn_loop (suc k) pfn pb =
    if pb == null
    then pure null
    else do v ← load pb; if v.page == pfn then pure pb else find_pfn_loop k pfn v.next

-- A merge takes a block to the next order, and no list has an order above `MAX_PAGE_ORDER`.
abbrev pub merge_depth : ℕ
merge_depth = 13

module _ (fuel : ℕ) where
  -- True stands for the result 1, a failure.
  unfoldable pub split_page_block : ℕ → Cmd FreeListHeader Bool
  split_page_block order = do
    pb ← get_next_free_block order
    base_addr ← if pb == null then pure 0 else (do v ← load pb; pure v.page)
    failed ← remove_next_free_block order
    if failed then pure true else do
      pb ← new_page_block base_addr
      add_block_to_order fuel pb (order - 1)
      v ← load pb
      pb ← new_page_block (get_buddy_pfn v)
      add_block_to_order fuel pb (order - 1)
      pure false

  -- The rounds left are `curr_order - target_order`.
  unfoldable pub reduce_loop : ℕ → ℕ → ℕ → Cmd FreeListHeader Ptr
  reduce_loop zero curr_order target_order = get_next_free_block target_order
  reduce_loop (suc n) curr_order target_order = do
    failed ← split_page_block curr_order
    if failed then pure null else reduce_loop n (curr_order - 1) target_order

  unfoldable pub reduce_to_order : ℕ → ℕ → Cmd FreeListHeader Ptr
  unfolding reduce_loop
  reduce_to_order order target_order = reduce_loop (order - target_order) order target_order

  unfoldable pub get_block : ℕ → Cmd FreeListHeader Ptr
  get_block order = do
    curr_order ← closest_loop (max_page_order - order) order
    if ltb max_page_order curr_order then pure null else reduce_to_order curr_order order

  unfoldable pub page_alloc : ℕ → Cmd FreeListHeader ℕ
  page_alloc nr_pages =
      if nr_pages == 0
      then pure 0
      else (if ltb max_page_block nr_pages then pure 0 else do
        order ← get_page_order nr_pages
        pb ← get_block order
        if pb == null then pure 0 else do mark_block_used pb; v ← load pb; pure v.page)

  unfoldable pub find_pfn_in_order : ℕ → ℕ → Cmd FreeListHeader Ptr
  unfolding find_pfn_loop
  find_pfn_in_order pfn order = do l ← get_block_free_list order; find_pfn_loop fuel pfn l.first

  -- The rounds left, from `order` to `MAX_PAGE_ORDER`.
  unfoldable pub find_block_loop : ℕ → ℕ → ℕ → Cmd FreeListHeader Ptr
  find_block_loop zero pfn order = pure null
  find_block_loop (suc n) pfn order = do
    pb ← find_pfn_in_order pfn order
    if pb == null then find_block_loop n pfn (order + 1) else pure pb

  unfoldable pub find_block_by_pfn : ℕ → Cmd FreeListHeader Ptr
  unfolding find_block_loop
  find_block_by_pfn pfn = find_block_loop (max_page_order + 1) pfn 0

  unfoldable pub get_block_buddy : Ptr → Cmd FreeListHeader Ptr
  get_block_buddy pb = do v ← load pb; find_pfn_in_order (get_buddy_pfn v) v.order

  -- The first argument bounds the depth of the recursion.
  unfoldable pub merge_buddy : ℕ → Ptr → Cmd FreeListHeader (Unit {0})
  merge_buddy zero pb = λ _. out_of_fuel
  merge_buddy (suc depth) pb = do
    v ← load pb
    buddy_pb ← get_block_buddy pb
    if buddy_pb == null then pure tt else do
      b ← load buddy_pb
      let final_pfn = if ltb b.page v.page then b.page else v.page
      if block_is_used v || block_is_used b then pure tt else do
        failed ← remove_page_block fuel pb
        if failed then pure tt else do
          failed ← remove_page_block fuel buddy_pb
          if failed then pure tt else do
            merged ← new_page_block final_pfn
            add_block_to_order fuel merged (v.order + 1)
            merge_buddy depth merged

  unfoldable pub page_free : ℕ → Cmd FreeListHeader (Unit {0})
  page_free pfn = do
    pb ← find_block_by_pfn pfn
    if pb == null then pure tt else (do mark_block_free pb; merge_buddy merge_depth pb)

  -- The first argument is `nr_blocks`.
  unfoldable pub create_loop : ℕ → ℕ → ℕ → Ptr → Cmd FreeListHeader (Unit {0})
  create_loop zero order curr_addr cb = pure tt
  create_loop (suc nr_blocks) order curr_addr cb = do
    n ← new_page_block curr_addr
    if cb == null then pure tt else set_next cb n
    add_block_to_order fuel n order
    offset ← block_phy_offset order
    create_loop nr_blocks order ((curr_addr + offset) % 2 ^ 64) n

  unfoldable pub create_free_list : ℕ → ℕ → ℕ → Cmd FreeListHeader (Unit {0})
  unfolding create_loop
  create_free_list start_addr order size = do
    cb ← gets FreeListHeader.last_entry
    create_loop size order start_addr cb

  -- The rounds left are `curr_order + 1`.
  unfoldable pub init_loop : ℕ → ℕ → ℕ → Cmd FreeListHeader (Unit {0})
  init_loop zero addr total_pages = pure tt
  init_loop (suc curr_order) addr total_pages = do
    let curr_order_pages = total_pages / page_block curr_order
    create_free_list addr curr_order curr_order_pages
    init_loop curr_order addr
        (if curr_order_pages == 0 then total_pages else total_pages % page_block curr_order)

  unfoldable pub init_free_list : ℕ → ℕ → Cmd FreeListHeader (Unit {0})
  unfolding init_loop
  init_free_list addr size = do
    modify (λ s. record s { last_entry = null })
    init_loop max_page_order addr (size / page_size)
