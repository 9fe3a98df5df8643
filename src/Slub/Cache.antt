-- ===== src/Slub/Cache.antt =====
-- slub.c: creation of caches and objects, allocation and release.
-- `core` is the running core, `idle_task` the task of that name in task.c, and `fuel` bounds the
-- walks that end only at NULL.
use hob_os.Base.{ℕ, zero, suc, ◌+◌, ◌/◌, ◌%◌, ◌^◌, true, false, ◌||◌, ◌==◌, if◌then◌else◌, update}
use hob_os.Base.Int.{ℤ, pos, negsuc}
use hob_os.Base.Run.{Cmd, pure, ◌>>=◌, ◌>>◌}
use hob_os.PageAlloc.Block.{page_size}
use hob_os.PageAlloc.Alloc.{page_alloc}
use hob_os.Task
use hob_os.Task.{Ptr, null, Task, Ctxt, Kernel}
use hob_os.Task.Threads.{get_curr_task}
use hob_os.Slub.{
  Slab, on_pages, on_kernel, load_obj, store_obj, set_next, load_cache, store_cache, load_fl,
  store_fl, order_offset, kmem_get_obj_order, page_of, last_obj_loop, extract_loop, parent_loop,
  last_cache_loop, find_cache_loop, kmem_extract_obj_child, kmem_cache_is_available,
  kmem_object_size, kmem_cache_create_only, min_order_kmem, max_nr_cache,
}

module _ (core fuel : ℕ) where
  unfoldable pub kmem_get_curr_cache : ℕ → Cmd Slab Ptr
  kmem_get_curr_cache order = do fl ← load_fl core; i ← order_offset order; pure (fl.cache i)

  unfoldable pub kmem_add_cache : Ptr → Cmd Slab (Unit {0})
  kmem_add_cache c = do
    v ← load_cache c
    fl_c ← kmem_get_curr_cache v.order
    i ← order_offset v.order
    if fl_c == null
        then (do fl ← load_fl core; store_fl core (record fl { cache = update fl.cache i c }))
        else (do
          fl_c ← last_cache_loop fuel fl_c
          w ← load_cache fl_c
          store_cache fl_c (record w { next = c }))

  unfoldable pub kmem_add_obj : Ptr → Ptr → Cmd Slab (Unit {0})
  kmem_add_obj c obj = do
    v ← load_cache c
    if v.first == null
        then (do
          o ← load_obj obj
          store_cache c (record v { first = obj; parent_page = page_of o.addr })
          set_next obj null)
        else (do
          n_obj ← last_obj_loop fuel v.first
          set_next n_obj obj
          v ← load_cache c
          if kmem_cache_is_available v
              then pure tt
              else store_cache c (record v { status = false }))

  -- The size of a `struct kmem_obj` is 32. The test `if (!c)` stands behind reads of `*c`.
  unfoldable pub kmem_create_obj : Ptr → Cmd Slab Ptr
  kmem_create_obj c = do
    v ← load_cache c
    fl ← load_fl v.parent_fl
    let obj = fl.end
    store_fl v.parent_fl (record fl { end = (fl.end + 32) % 2 ^ 64 })
    o ← load_obj obj
    store_obj obj
        (record o { order = v.order; parent_core_id = core; parent_cache = c; next = null })
    v ← load_cache c
    addr ← if v.first == null then on_pages (page_alloc fuel 1) else (do
      n_obj ← last_obj_loop fuel v.first
      n ← load_obj n_obj
      pure ((n.addr + kmem_object_size v.order) % 2 ^ 64))
    o ← load_obj obj
    store_obj obj (record o { addr = addr })
    kmem_add_obj c obj
    pure obj

  -- The first argument is the rounds left.
  unfoldable pub populate_loop : ℕ → Ptr → Cmd Slab (Unit {0})
  populate_loop zero c = pure tt
  populate_loop (suc n) c = do kmem_create_obj c; populate_loop n c

  unfoldable pub kmem_populate_cache : Ptr → Cmd Slab (Unit {0})
  kmem_populate_cache c = do
    v ← load_cache c
    populate_loop (page_size / kmem_object_size v.order) c

  -- The size of a `struct kmem_cache` is 48.
  unfoldable pub kmem_create_cache : ℕ → ℕ → Cmd Slab Ptr
  kmem_create_cache order flags = do
    fl ← load_fl core
    if fl.end == null
        then (do page ← on_pages (page_alloc fuel 1); store_fl core (record fl { end = page }))
        else pure tt
    fl ← load_fl core
    if fl.end == null then pure null else do
      let c = fl.end
      store_fl core (record fl { end = (fl.end + 48) % 2 ^ 64 })
      v ← load_cache c
      store_cache c (record v { order = order; parent_fl = core; status = true; next = null })
      if flags == kmem_cache_create_only then pure tt else kmem_populate_cache c
      pure c

  -- The first argument is the rounds left, the second the order of the next one.
  unfoldable pub init_caches_loop : ℕ → ℕ → Cmd Slab (Unit {0})
  init_caches_loop zero i = pure tt
  init_caches_loop (suc n) i = do
    c ← kmem_create_cache i 0
    kmem_add_cache c
    init_caches_loop n (i + 1)

  unfoldable pub kmem_init_caches : Cmd Slab (Unit {0})
  kmem_init_caches = init_caches_loop max_nr_cache min_order_kmem

  unfoldable pub kmem_extract_obj_from_cache : Ptr → Cmd Slab Ptr
  kmem_extract_obj_from_cache c = do
    v ← load_cache c
    if v.first == null
        then pure null
        else do (p_obj, obj) ← extract_loop fuel v.first v.first; set_next p_obj null; pure obj

  unfoldable pub kmem_extract_obj_from_fl : ℕ → Cmd Slab Ptr
  kmem_extract_obj_from_fl order = do c ← kmem_get_curr_cache order; kmem_extract_obj_from_cache c

  unfoldable pub kmem_add_to_task : Ptr → Ptr → Cmd Slab (Unit {0})
  kmem_add_to_task t obj = do
    v ← on_kernel (Task.load t)
    ctxt ← on_kernel (Task.load_ctxt v.ctxt)
    set_next obj null
    if ctxt.used_kmem == null
        then on_kernel (Task.store_ctxt v.ctxt (record ctxt { used_kmem = obj }))
        else (do o ← last_obj_loop fuel ctxt.used_kmem; set_next o obj)

  unfoldable pub kmem_acquire_obj : ℕ → Cmd Slab Ptr
  kmem_acquire_obj size = do order ← kmem_get_obj_order size; kmem_extract_obj_from_fl order

  unfoldable pub kmem_get_obj_parent : Ptr → Ptr → Cmd Slab Ptr
  kmem_get_obj_parent objs addr = if (addr == null) || (objs == null) then pure null else do
    o ← load_obj objs
    if o.addr == addr then pure objs else parent_loop fuel addr objs objs

  unfoldable pub kmem_extract_obj : Ptr → Ptr → Cmd Slab Ptr
  kmem_extract_obj t addr = do
    v ← on_kernel (Task.load t)
    ctxt ← on_kernel (Task.load_ctxt v.ctxt)
    target_obj ← kmem_get_obj_parent ctxt.used_kmem addr
    kmem_extract_obj_child target_obj

  unfoldable pub kmem_find_relative_cache : Ptr → Cmd Slab Ptr
  kmem_find_relative_cache obj = do
    o ← load_obj obj
    c ← kmem_get_curr_cache o.order
    find_cache_loop fuel (page_of o.addr) c

  unfoldable pub kmem_reclaim_obj : Ptr → Cmd Slab (Unit {0})
  kmem_reclaim_obj obj = do
    o ← load_obj obj
    if core == o.parent_core_id
        then (do c ← kmem_get_curr_cache o.order; kmem_add_obj c obj)
        else (do
          c ← kmem_find_relative_cache obj
          c ← if c == null then kmem_create_cache o.order kmem_cache_create_only else pure c
          kmem_add_obj c obj)

  module _ (idle_task : Ptr) where
    unfoldable pub slub_alloc : ℕ → Cmd Slab Ptr
    slub_alloc size = do
      fl ← load_fl core
      if fl.cache 0 == null then kmem_init_caches else pure tt
      obj ← kmem_acquire_obj size
      if obj == null then pure null else do
        t ← on_kernel (get_curr_task core idle_task)
        if t == null then pure null else do kmem_add_to_task t obj; o ← load_obj obj; pure o.addr

    unfoldable pub slub_free : Ptr → Cmd Slab ℤ
    slub_free addr = if addr == null then pure (pos 0) else do
      t ← on_kernel (get_curr_task core idle_task)
      o ← kmem_extract_obj t addr
      if o == null then pure (negsuc 0) else do kmem_reclaim_obj o; pure (pos 0)
