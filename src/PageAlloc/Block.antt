-- ===== src/PageAlloc/Block.antt =====
-- page_alloc.c, lines 32-293: page blocks, and the list of blocks of each order.
-- A `struct page_block *` is the block's position, from 1, in the array of blocks that starts
-- behind `fl_meta`; 0 is NULL. `fuel` bounds the walks that end only at NULL.
use hob_os.Base.{
  ℕ, zero, suc, ◌+◌, ◌-◌, ◌*◌, ◌%◌, ◌^◌, Bool, true, false, not, ◌&&◌, ◌==◌, leb, if◌then◌else◌,
  update,
}
use Prim.Native.Nat.{bit_and, bit_xor}
use hob_os.Base.Run.{Cmd, ok, fault, out_of_fuel, pure, gets, ◌>>=◌, ◌>>◌}

abbrev pub max_page_order : ℕ
max_page_order = 11

-- `PAGE_BLOCK(order)`, the pages of a block
abbrev pub page_block : ℕ → ℕ
page_block order = 2 ^ order

abbrev pub max_page_block : ℕ
max_page_block = 2048

abbrev pub page_size : ℕ
page_size = 4096

abbrev pub block_used : ℕ
block_used = 0xDEDE

abbrev pub Ptr : Type 0
Ptr = ℕ

abbrev pub null : Ptr
null = 0

pub record PageBlock : Type 0 where
  pub page : ℕ
  pub order : ℕ
  pub flags : ℕ
  pub next : Ptr

pub record FreeList : Type 0 where
  pub first : Ptr
  pub count : ℕ

-- `fl_meta` and the blocks behind it.
pub record FreeListHeader : Type 0 where
  pub list : ℕ → FreeList
  pub last_entry : Ptr
  pub block : Ptr → PageBlock

-- `*get_block_free_list(order)`: the array `list` has `MAX_PAGE_ORDER + 1` elements.
unfoldable pub get_block_free_list : ℕ → Cmd FreeListHeader FreeList
get_block_free_list order s = if leb order max_page_order then ok (s.list order) s else fault

unfoldable pub put_free_list : ℕ → FreeList → Cmd FreeListHeader (Unit {0})
put_free_list order l s =
    if leb order max_page_order then ok tt (record s { list = update s.list order l }) else fault

-- `*pb`
unfoldable pub load : Ptr → Cmd FreeListHeader PageBlock
load pb s = if pb == null then fault else ok (s.block pb) s

unfoldable pub store : Ptr → PageBlock → Cmd FreeListHeader (Unit {0})
store pb v s = if pb == null then fault else ok tt (record s { block = update s.block pb v })

unfoldable pub set_next : Ptr → Ptr → Cmd FreeListHeader (Unit {0})
set_next pb q = do v ← load pb; store pb (record v { next = q })

-- The product is an `unsigned int`.
unfoldable pub get_list_size : ℕ → Cmd FreeListHeader ℕ
get_list_size order = do
  l ← get_block_free_list order
  pure (page_block order * l.count * page_size % 2 ^ 32)

unfoldable pub get_buddy_pfn : PageBlock → ℕ
get_buddy_pfn pb = bit_xor (page_size * 2 ^ pb.order) pb.page

unfoldable pub block_phy_offset : ℕ → Cmd FreeListHeader ℕ
block_phy_offset order = get_list_size order

unfoldable pub block_is_used : PageBlock → Bool
block_is_used pb = not (bit_and pb.flags block_used == 0)

abbrev pub block_is_free : PageBlock → Bool
block_is_free pb = not (block_is_used pb)

unfoldable pub page_block_exists : ℕ → Cmd FreeListHeader Bool
page_block_exists order = do l ← get_block_free_list order; pure (not (l.count == 0))

-- The first argument is the rounds left, `list->count - i`. The warning that `count` is too large
-- is not modelled.
unfoldable pub has_free_loop : ℕ → Ptr → Cmd FreeListHeader Bool
has_free_loop zero pb = pure false
has_free_loop (suc n) pb =
    if pb == null
    then pure false
    else do v ← load pb; if block_is_free v then pure true else has_free_loop n v.next

unfoldable pub list_has_free_block : ℕ → Cmd FreeListHeader Bool
list_has_free_block order = do
  l ← get_block_free_list order
  exists ← page_block_exists order
  if exists then has_free_loop l.count l.first else pure false

-- The block behind the last entry; `order` keeps what the memory holds.
unfoldable pub new_page_block : ℕ → Cmd FreeListHeader Ptr
new_page_block page_addr s =
    let pb = s.last_entry + 1 in
    ok pb (record s {
      last_entry = pb;
      block = update s.block pb (record (s.block pb) { page = page_addr; next = null; flags = 0 });
    })

-- `index` rounds of `pb = pb->next`
unfoldable pub nth_loop : ℕ → Ptr → Cmd FreeListHeader Ptr
nth_loop zero pb = pure pb
nth_loop (suc i) pb = do v ← load pb; nth_loop i v.next

unfoldable pub get_nth_block : ℕ → ℕ → Cmd FreeListHeader Ptr
get_nth_block order index = do
  l ← get_block_free_list order
  if leb l.count index then pure null else nth_loop index l.first

unfoldable pub delete_block : Ptr → Cmd FreeListHeader (Unit {0})
delete_block pb = store pb (record { page = 0; order = 0; flags = 0; next = null })

-- From the last block but one down to the first: `nth` has the index that the round looks at.
-- True stands for the result 1, a failure.
unfoldable pub remove_free_loop : ℕ → ℕ → Cmd FreeListHeader Bool
remove_free_loop zero order = pure true
remove_free_loop (suc nth) order = do
  l ← get_block_free_list order
  f ← load l.first
  pb ← get_nth_block f.order nth
  v ← load pb
  n ← load v.next
  if block_is_free n
      then (do
        set_next pb null
        l ← get_block_free_list order
        put_free_list order (record l { count = l.count - 1 })
        pure false)
      else remove_free_loop nth order

unfoldable pub remove_next_free_block : ℕ → Cmd FreeListHeader Bool
remove_next_free_block order = do
  l ← get_block_free_list order
  if l.count == 0
      then pure true
      else (if l.count == 1
          then (do
            f ← load l.first
            if block_is_used f
                then pure true
                else (do put_free_list order (record { first = null; count = 0 }); pure false))
          else remove_free_loop (l.count - 1) order)

-- The argument is the variable `i` of the loop.
unfoldable pub next_free_loop : ℕ → ℕ → Cmd FreeListHeader Ptr
next_free_loop order zero = pure null
next_free_loop order (suc i) = do
  pb ← get_nth_block order i
  if pb == null
      then pure null
      else do v ← load pb; if block_is_free v then pure pb else next_free_loop order i

unfoldable pub get_next_free_block : ℕ → Cmd FreeListHeader Ptr
get_next_free_block order = do
  pb ← gets FreeListHeader.last_entry
  l ← get_block_free_list order
  v ← load pb
  if (v.order == order) && block_is_free v then pure pb else next_free_loop order l.count

-- `while (cb->next) cb = cb->next`
unfoldable pub last_loop : ℕ → Ptr → Cmd FreeListHeader Ptr
last_loop zero cb = λ _. out_of_fuel
last_loop (suc k) cb = do v ← load cb; if v.next == null then pure cb else last_loop k v.next

-- True stands for the result 1, a failure.
unfoldable pub remove_loop : ℕ → ℕ → Ptr → Ptr → Cmd FreeListHeader Bool
remove_loop zero order pb cb = λ _. out_of_fuel
remove_loop (suc k) order pb cb = if cb == null then pure true else do
  c ← load cb
  if c.next == pb
      then (do
        l ← get_block_free_list order
        put_free_list order (record l { count = (l.count + 2 ^ 32 - 1) % 2 ^ 32 })
        v ← load pb
        set_next cb v.next
        set_next pb null
        pure false)
      else remove_loop k order pb c.next

module _ (fuel : ℕ) where
  unfoldable pub add_block_to_order : Ptr → ℕ → Cmd FreeListHeader (Unit {0})
  add_block_to_order pb order = do
    v ← load pb
    store pb (record v { order = order })
    l ← get_block_free_list order
    if l.first == null
        then put_free_list order (record l { first = pb })
        else (do cb ← last_loop fuel l.first; set_next cb pb)
    l ← get_block_free_list order
    put_free_list order (record l { count = (l.count + 1) % 2 ^ 32 })

  unfoldable pub remove_page_block : Ptr → Cmd FreeListHeader Bool
  remove_page_block pb = do
    v ← load pb
    l ← get_block_free_list v.order
    if l.count == 1
        then (do put_free_list v.order (record { first = null; count = 0 }); pure false)
        else remove_loop fuel v.order pb l.first
