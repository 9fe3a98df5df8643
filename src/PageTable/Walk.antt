-- ===== src/PageTable/Walk.antt =====
-- pt.c: creation of tables, and the walk that maps a page. `core`, `fuel` and `idle_task` are as in
-- Slub/Cache.antt; `fuel` also bounds the walks of a list of descriptors.
use hob_os.Base.{
  ℕ, zero, suc, ◌+◌, ◌-◌, ◌*◌, ◌%◌, ◌^◌, Bool, true, false, ◌&&◌, ltb, ◌==◌, if◌then◌else◌, update,
}
use Prim.Native.Nat.{bit_and, bit_or}
use hob_os.Base.Int.{ℤ, pos, negsuc, sub_ℕ, wrap32, to_u64}
use hob_os.Base.Run.{Cmd, ok, fault, out_of_fuel, pure, gets, modify, ◌>>=◌, ◌>>◌}
use hob_os.Mm.{kmalloc}
use hob_os.Task.{Ptr, null}
use hob_os.PageTable.{
  Paging, PageTableDesc, VaMetadata, pt_lvl_max, pte_flags_kernel_generic, va_to_pa, pt_entry,
  pte_is_empty, extract_addr_from_pte, extract_va_metadata, load_desc, store_desc, load_entry,
  store_entry, on_heap, place_pt_entry,
}

-- A descriptor of zero bytes
abbrev pub zero_desc : PageTableDesc
zero_desc = record { level = 0; pt_len = 0; pt = null; next = null; child_pt_desc = null }

-- `memset` of the page at `p` to 0
unfoldable pub clear_descs : Ptr → Cmd Paging (Unit {0})
clear_descs p s =
    if p == null
    then fault
    else ok tt (record s {
      desc =
          λ a. if ltb a p then s.desc a else (if ltb a (p + 0x1000) then zero_desc else s.desc a);
    })

-- `while (pt_desc->next) pt_desc = pt_desc->next`
unfoldable pub last_desc_loop : ℕ → Ptr → Cmd Paging Ptr
last_desc_loop zero d = λ _. out_of_fuel
last_desc_loop (suc k) d = do
  v ← load_desc d
  if v.next == null then pure d else last_desc_loop k v.next

unfoldable pub find_desc_loop : ℕ → ℕ → Ptr → Cmd Paging Ptr
find_desc_loop zero addr d = λ _. out_of_fuel
find_desc_loop (suc k) addr d =
    if d == null
    then pure null
    else do v ← load_desc d; if addr == va_to_pa v.pt then pure d else find_desc_loop k addr v.next

-- Levels are 1 to 3: another one is an index outside `index[3]`.
unfoldable pub index_at : VaMetadata → ℕ → Cmd Paging ℕ
index_at meta level =
    if ltb 0 level && ltb level 4 then pure (meta.index (level - 1)) else λ _. fault

-- `*pte`, for a pointer that the walk returned
unfoldable pub load_pte : Ptr → Cmd Paging ℕ
load_pte pte s = if pte == null then fault else ok (s.word pte) s

unfoldable pub store_pte : Ptr → ℕ → Cmd Paging (Unit {0})
store_pte pte v s = if pte == null then fault else ok tt (record s { word = update s.word pte v })

-- `i + PAGE_SIZE`
abbrev next_page : ℤ → ℤ
next_page (pos n) = wrap32 (pos (n + 0x1000))
next_page (negsuc n) = sub_ℕ 0x1000 (suc n)

module _ (core fuel : ℕ) (idle_task : Ptr) where
  unfoldable pub create_pt_desc : ℕ → Cmd Paging Ptr
  create_pt_desc level = do
    tables ← gets Paging.global_page_tables
    if tables == null
        then (do
          p ← on_heap (kmalloc core fuel idle_task 0x1000)
          modify (λ s. record s { global_page_tables = p })
          clear_descs p)
        else pure tt
    tables ← gets Paging.global_page_tables
    i ← gets Paging.pt_ctr
    modify (λ s. record s { pt_ctr = (i + 1) % 2 ^ 8 })
    if ltb i 128
        then (do
          let pt_desc = tables + 32 * i
          v ← load_desc pt_desc
          store_desc pt_desc
              (record v { level = level % 2 ^ 8; pt_len = 0; next = null; child_pt_desc = null })
          pure pt_desc)
        else λ _. fault

  unfoldable pub create_pt : ℕ → ℕ → Cmd Paging Ptr
  create_pt pt_baddr level = do
    pt ← if pt_baddr == 0 then on_heap (kmalloc core fuel idle_task 0x1000) else pure pt_baddr
    if pt == null then pure null else do
      pt_desc ← create_pt_desc level
      v ← load_desc pt_desc
      store_desc pt_desc (record v { pt = pt })
      pure pt_desc

  unfoldable pub pt_desc_add_child : Ptr → Ptr → Cmd Paging (Unit {0})
  pt_desc_add_child parent child = do
    v ← load_desc parent
    if v.child_pt_desc == null then store_desc parent (record v { child_pt_desc = child }) else do
      d ← last_desc_loop fuel v.child_pt_desc
      w ← load_desc d
      store_desc d (record w { next = child })

  unfoldable pub pt_desc_get_from_parent : ℕ → Ptr → Cmd Paging Ptr
  pt_desc_get_from_parent addr parent = do
    v ← load_desc parent
    find_desc_loop fuel addr v.child_pt_desc

  -- The descriptor of the next level, or NULL
  unfoldable pub next_level : Ptr → ℕ → ℕ → Cmd Paging Ptr
  next_level pt_desc pt_index pte_flags = do
    v ← load_desc pt_desc
    pte ← load_entry v.pt pt_index
    if pte_is_empty pte
        then (do
          new_pt_desc ← create_pt 0 (v.level + 1)
          if new_pt_desc == null then pure null else do
            w ← load_desc new_pt_desc
            place_pt_entry pt_desc (pt_entry w.pt pte_flags) (pos pt_index)
            pt_desc_add_child pt_desc new_pt_desc
            pure new_pt_desc)
        else pt_desc_get_from_parent (extract_addr_from_pte pte) pt_desc

  -- The rounds left, and the variable `i`.
  unfoldable pub map_loop : ℕ → ℕ → VaMetadata → ℕ → ℕ → Bool → Ptr → Cmd Paging Ptr
  map_loop zero i meta va pte_flags walk_only pt_desc = pure va
  map_loop (suc n) i meta va pte_flags walk_only pt_desc = do
    v ← load_desc pt_desc
    pt_index ← index_at meta v.level
    if i == pt_lvl_max
        then (if walk_only
            then pure (v.pt + 8 * pt_index)
            else (do store_entry v.pt pt_index (pt_entry meta.offset pte_flags); pure va))
        else (do
          d ← next_level pt_desc pt_index pte_flags
          if d == null then pure null else map_loop n (i + 1) meta va pte_flags walk_only d)

  unfoldable pub map_pa_to_va_pg : ℕ → ℕ → Ptr → ℕ → Bool → Cmd Paging Ptr
  map_pa_to_va_pg pa va pt_top flags walk_only = do
    v ← load_desc pt_top
    let meta = extract_va_metadata va
    let pte_flags = if flags == 0 then pte_flags_kernel_generic else flags
    map_loop (pt_lvl_max + 1 - v.level) v.level
        (record meta { offset = (meta.offset + pa) % 2 ^ 64 }) va pte_flags walk_only pt_top

  unfoldable pub va_set_attr : ℕ → Ptr → ℕ → Cmd Paging (Unit {0})
  va_set_attr va pt_desc pte_attr = do
    pte ← map_pa_to_va_pg 0 va pt_desc 0 true
    e ← load_pte pte
    store_pte pte (bit_or e pte_attr)

  -- `*pte & ~pte_attr`
  unfoldable pub va_clear_attr : ℕ → Ptr → ℕ → Cmd Paging (Unit {0})
  va_clear_attr va pt_desc pte_attr = do
    pte ← map_pa_to_va_pg 0 va pt_desc 0 true
    e ← load_pte pte
    store_pte pte (bit_and e (2 ^ 64 - 1 - pte_attr))

  -- `i` is an `int`, and the test compares it as a `u64`. The first argument is fuel.
  unfoldable pub id_mapping_loop : ℕ → ℤ → ℕ → Ptr → ℕ → Cmd Paging (Unit {0})
  id_mapping_loop zero i end_paddr pt_desc flags = λ _. out_of_fuel
  id_mapping_loop (suc n) i end_paddr pt_desc flags =
      if ltb (to_u64 i) end_paddr
      then (do
        map_pa_to_va_pg (to_u64 i) (to_u64 i) pt_desc flags false
        id_mapping_loop n (next_page i) end_paddr pt_desc flags)
      else pure tt

  unfoldable pub create_id_mapping : ℕ → ℕ → ℕ → Cmd Paging (Unit {0})
  create_id_mapping start_paddr end_paddr flags = do
    pt_desc ← create_pt 0 1
    if pt_desc == null
        then pure tt
        else id_mapping_loop fuel (wrap32 (pos start_paddr)) end_paddr pt_desc flags
