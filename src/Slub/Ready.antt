-- ===== src/Slub/Ready.antt =====
-- The state of a core that `slub_alloc` can serve, and reads and writes of objects.
use hob_os.Base.{
  ℕ, ◌-◌, ◌≤◌, ◌<◌, ◌≡◌, ◌≢◌, true, ltb, update, ne→==, ltb-le, arith, Bool-cases, inl, inr,
}
use hob_os.Base.Run.{ok, Ends-eq}
use hob_os.Task.{Ptr, null}
use hob_os.Task.Access.{load_queue-ok}
use hob_os.Task.Threads.{get_curr_task}
use hob_os.Workqueue.{wq_get_curr, get_core_workqueue}
use hob_os.Slub.{Slab, KmemObj, load_fl, load_obj, store_obj, set_next, order_offset}
use hob_os.Slub.Cache.{
  kmem_get_curr_cache, kmem_extract_obj_from_cache, kmem_extract_obj_from_fl, kmem_acquire_obj,
}
use hob_os.Slub.Order.{IsObjOrder, kmem_get_obj_order-IsObjOrder}

abbrev pub used : Slab → Ptr → Ptr
used s cx = (s.kernel.ctxt cx).used_kmem

-- The caches of the core stand, `c` is the one for `size`, and `t` is the current task, with the
-- context `cx`.
pub record Ready (core size : ℕ) (s : Slab) (c t cx : Ptr) : Type 0 where
  pub core_ok : core < 4
  pub made : (s.fls core).cache 0 ≢ null
  pub cache_at : (o : ℕ) → IsObjOrder size o → (s.fls core).cache (o - 6) ≡ c
  pub c_ne : c ≢ null
  pub pid : s.kernel.pid_cntr ≢ 1
  pub wq_ne : s.kernel.global_wqs core ≢ null
  pub current : (s.kernel.wq (s.kernel.global_wqs core)).queue ≡ t
  pub t_ne : t ≢ null
  pub ctxt : (s.kernel.task t).ctxt ≡ cx
  pub cx_ne : cx ≢ null

pub load_obj-ok : (s : Slab) (p : Ptr) → p ≢ null → load_obj p s ≡ ok (s.obj p) s
unfolding load_obj
load_obj-ok s p ne = rw (ne→== p null ne)

pub store_obj-ok :
    (s : Slab) (p : Ptr) (v : KmemObj)
    → p ≢ null
    → store_obj p v s ≡ ok tt (record s { obj = update s.obj p v })
unfolding store_obj
store_obj-ok s p v ne = rw (ne→== p null ne)

pub set_next-ok :
    (s : Slab) (p q : Ptr)
    → p ≢ null
    → set_next p q s ≡ ok tt (record s { obj = update s.obj p (record (s.obj p) { next = q }) })
unfolding set_next
set_next-ok s p q ne = rw (load_obj-ok s p ne) (store_obj-ok s p _ ne)

order-le : (size o : ℕ) → size ≤ 1024 → IsObjOrder size o → o ≤ 10
order-le size o small h = elim (Bool-cases (ltb 10 o)) [
  | inl e ↦ absurd (omega (arith, h.2 10 (omega arith) (ground arith)))
  | inr e ↦ ground arith
]

pub current-Ready :
    {core size : ℕ} {s : Slab} {c t cx : Ptr} (idle_task : Ptr)
    → Ready core size s c t cx
    → get_curr_task core idle_task s.kernel ≡ ok t s.kernel
unfolding get_curr_task wq_get_curr get_core_workqueue
current-Ready {core} {size} {s} idle_task h = rw (
  ne→== s.kernel.pid_cntr 1 h.pid,
  ne→== (s.kernel.global_wqs core) null h.wq_ne,
  load_queue-ok s.kernel (s.kernel.global_wqs core) h.wq_ne,
  h.current,
)

-- The search for the cache of `size` ends at `c`.
pub cache-Ready :
    {core size : ℕ} {s : Slab} {c t cx : Ptr} (fuel : ℕ) (small : size ≤ 1024)
    → Ready core size s c t cx
    → kmem_acquire_obj core fuel size s ≡ kmem_extract_obj_from_cache core fuel c s
unfolding kmem_acquire_obj kmem_extract_obj_from_fl kmem_get_curr_cache order_offset load_fl
cache-Ready {core} {size} {s} fuel small h =
    let (o, u, e, found) = Ends-eq (kmem_get_obj_order-IsObjOrder size s (omega arith)) in
    let ho = order-le size o small found.1 in
    let cores : ltb core 4 ≡ true = ground (arith, h.core_ok) in
    rw (e, found.0, cores, ltb-le o 6 found.1.0, ltb-le 10 o ho, h.cache_at o found.1)
