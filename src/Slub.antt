-- ===== src/Slub.antt =====
-- slub.c and include/hobos/slub.h: objects of 64 to 1024 bytes, in a cache for each order and core.
-- The state has the objects and caches by address, `global_fls`, and the states of the page
-- allocator and of the tasks, on which `page_alloc` and `get_curr_task` run. What a page holds
-- before it is written is not known: a field that the code does not set keeps what is there.
pub mod Cache
pub mod Free
pub mod Order
pub mod Ready
pub mod Sample
pub mod Single
pub mod Take
mod Tests
use hob_os.Base.{
  ℕ, zero, suc, ◌+◌, ◌-◌, ◌*◌, ◌/◌, ◌%◌, ◌^◌, Bool, true, false, not, ◌||◌, ltb, ◌==◌,
  if◌then◌else◌, update,
}
use hob_os.Base.Int.{ℤ, pos, negsuc}
use hob_os.Base.Run.{Run, Cmd, ok, fault, out_of_fuel, pure, gets, modify, ◌>>=◌, ◌>>◌}
use hob_os.PageAlloc.Block.{FreeListHeader, page_size}
use hob_os.PageAlloc.Alloc.{page_alloc}
use hob_os.Task.{Ptr, null, Task, Ctxt, Kernel}
use hob_os.Task.Threads.{get_curr_task}

abbrev pub min_order_kmem : ℕ
min_order_kmem = 6

abbrev pub max_order_kmem : ℕ
max_order_kmem = 10

abbrev pub max_nr_cache : ℕ
max_nr_cache = max_order_kmem - min_order_kmem + 1

abbrev pub max_cpu_nr_cache : ℕ
max_cpu_nr_cache = 4

abbrev pub kmem_object_size : ℕ → ℕ
kmem_object_size order = 2 ^ order

abbrev pub kmem_cache_create_only : ℕ
kmem_cache_create_only = 0xAB

pub record KmemObj : Type 0 where
  pub addr : Ptr
  pub order : ℕ
  pub parent_core_id : ℕ
  pub parent_cache : Ptr
  pub next : Ptr

-- `parent_fl` is the index in `global_fls.fls`. The status `KMEM_CACHE_AVAIL` is 0.
pub record KmemCache : Type 0 where
  pub order : ℕ
  pub parent_fl : ℕ
  pub parent_page : Ptr
  pub first : Ptr
  pub status : Bool
  pub next : Ptr

pub record KmemFl : Type 0 where
  pub cache : ℕ → Ptr
  pub end : Ptr
  pub core_id : ℕ

pub record Slab : Type 0 where
  pub obj : Ptr → KmemObj
  pub cache : Ptr → KmemCache
  pub fls : ℕ → KmemFl
  pub pages : FreeListHeader
  pub kernel : Kernel

module _ {A : Type 0} where
  -- Code of the page allocator
  abbrev with_pages : Slab → Run FreeListHeader A → Run Slab A
  with_pages s (ok a t) = ok a (record s { pages = t })
  with_pages s fault = fault
  with_pages s out_of_fuel = out_of_fuel

  abbrev pub on_pages : Cmd FreeListHeader A → Cmd Slab A
  on_pages m s = with_pages s (m s.pages)

  -- Code of the tasks
  abbrev with_kernel : Slab → Run Kernel A → Run Slab A
  with_kernel s (ok a t) = ok a (record s { kernel = t })
  with_kernel s fault = fault
  with_kernel s out_of_fuel = out_of_fuel

  abbrev pub on_kernel : Cmd Kernel A → Cmd Slab A
  on_kernel m s = with_kernel s (m s.kernel)

unfoldable pub load_obj : Ptr → Cmd Slab KmemObj
load_obj p s = if p == null then fault else ok (s.obj p) s

unfoldable pub store_obj : Ptr → KmemObj → Cmd Slab (Unit {0})
store_obj p v s = if p == null then fault else ok tt (record s { obj = update s.obj p v })

-- `obj->next = q`
unfoldable pub set_next : Ptr → Ptr → Cmd Slab (Unit {0})
unfolding load_obj store_obj
set_next p q = do v ← load_obj p; store_obj p (record v { next = q })

unfoldable pub load_cache : Ptr → Cmd Slab KmemCache
load_cache c s = if c == null then fault else ok (s.cache c) s

unfoldable pub store_cache : Ptr → KmemCache → Cmd Slab (Unit {0})
store_cache c v s = if c == null then fault else ok tt (record s { cache = update s.cache c v })

-- `*fl`, an element of an array of `MAX_CPU_NR_CACHE`
unfoldable pub load_fl : ℕ → Cmd Slab KmemFl
load_fl fl s = if ltb fl max_cpu_nr_cache then ok (s.fls fl) s else fault

unfoldable pub store_fl : ℕ → KmemFl → Cmd Slab (Unit {0})
store_fl fl v s =
    if ltb fl max_cpu_nr_cache then ok tt (record s { fls = update s.fls fl v }) else fault

-- The index of an order in the array `cache` of `MAX_NR_CACHE` pointers. Another index faults.
unfoldable pub order_offset : ℕ → Cmd Slab ℕ
order_offset order s =
    if ltb order min_order_kmem
    then fault
    else (if ltb max_order_kmem order then fault else ok (order - min_order_kmem) s)

-- `KMEM_OBJECT_SIZE(order)` is at least `size`. The first argument is fuel.
unfoldable pub obj_order_loop : ℕ → ℕ → ℕ → Cmd Slab ℕ
obj_order_loop zero size i = λ _. out_of_fuel
obj_order_loop (suc k) size i =
    if ltb (kmem_object_size i) size then obj_order_loop k size (i + 1) else pure i

-- `size` is below 4096 where it is called, in `kmalloc`.
unfoldable pub kmem_get_obj_order : ℕ → Cmd Slab ℕ
unfolding obj_order_loop
kmem_get_obj_order size = obj_order_loop 32 size min_order_kmem

-- The page that an address lies in: `addr & ~0xFFF`
abbrev pub page_of : Ptr → Ptr
page_of addr = addr - addr % 4096

-- `while (obj->next) obj = obj->next`
unfoldable pub last_obj_loop : ℕ → Ptr → Cmd Slab Ptr
last_obj_loop zero obj = λ _. out_of_fuel
last_obj_loop (suc k) obj = do
  v ← load_obj obj
  if v.next == null then pure obj else last_obj_loop k v.next

-- The last object, and the one before it
unfoldable pub extract_loop : ℕ → Ptr → Ptr → Cmd Slab (Ptr × Ptr)
extract_loop zero p_obj obj = λ _. out_of_fuel
extract_loop (suc k) p_obj obj = do
  v ← load_obj obj
  if v.next == null then pure (p_obj, obj) else extract_loop k obj v.next

unfoldable pub parent_loop : ℕ → Ptr → Ptr → Ptr → Cmd Slab Ptr
parent_loop zero addr p o = λ _. out_of_fuel
parent_loop (suc k) addr p o =
    if o == null
    then pure null
    else do v ← load_obj o; if v.addr == addr then pure p else parent_loop k addr o v.next

unfoldable pub last_cache_loop : ℕ → Ptr → Cmd Slab Ptr
last_cache_loop zero c = λ _. out_of_fuel
last_cache_loop (suc k) c = do
  v ← load_cache c
  if v.next == null then pure c else last_cache_loop k v.next

unfoldable pub find_cache_loop : ℕ → Ptr → Ptr → Cmd Slab Ptr
find_cache_loop zero parent_page c = λ _. out_of_fuel
find_cache_loop (suc k) parent_page c = if c == null then pure null else do
  v ← load_cache c
  if v.parent_page == parent_page then pure c else find_cache_loop k parent_page v.next

unfoldable pub kmem_extract_obj_child : Ptr → Cmd Slab Ptr
kmem_extract_obj_child parent = if parent == null then pure parent else do
  v ← load_obj parent
  if v.next == null
      then pure parent
      else do c ← load_obj v.next; set_next parent c.next; set_next v.next null; pure v.next

abbrev pub kmem_cache_is_available : KmemCache → Bool
kmem_cache_is_available c = not c.status
