-- ===== src/Slub/Single.antt =====
-- Allocation from a cache that has one object left.
use hob_os.Base.{ℕ, suc, ◌≤◌, ◌≡◌, ◌≢◌, ◌∙◌, refl, true, ltb, update, eq→==, ne→==, arith}
use hob_os.Base.Run.{Cmd, ok, pure, ◌>>=◌, ◌>>◌, Ends, ends, after}
use hob_os.Task.{Ptr, null}
use hob_os.Task.Access.{load-ok, load_ctxt-ok, store_ctxt-ok}
use hob_os.Slub.{Slab, load_fl, load_obj, load_cache, extract_loop, last_obj_loop}
use hob_os.Slub.Cache.{kmem_extract_obj_from_cache, kmem_acquire_obj, kmem_add_to_task, slub_alloc}
use hob_os.Slub.Ready.{Ready, used, load_obj-ok, set_next-ok, current-Ready, cache-Ready}

-- `x` is the one object of the cache `c`.
pub record Single (core size : ℕ) (s : Slab) (c x t cx : Ptr) : Type 0 where
  pub here : Ready core size s c t cx
  pub first : (s.cache c).first ≡ x
  pub x_ne : x ≢ null
  pub alone : (s.obj x).next ≡ null

-- `x` has no next one.
abbrev cut : Slab → Ptr → Slab
cut s x = record s { obj = update s.obj x (record (s.obj x) { next = null }) }

module _ (core fuel : ℕ) (idle_task : Ptr) (size : ℕ) (c x t cx : Ptr) (small : size ≤ 1024) where
  acquire-Single :
      {s : Slab}
      → Single core size s c x t cx
      → kmem_acquire_obj core (suc fuel) size s ≡ ok x (cut s x)
  unfolding kmem_extract_obj_from_cache load_cache extract_loop
  acquire-Single {s} h = rw (
    cache-Ready (suc fuel) small h.here,
    ne→== c null h.here.c_ne,
    h.first,
    ne→== x null h.x_ne,
    load_obj-ok s x h.x_ne,
    h.alone,
    set_next-ok s x null h.x_ne,
  )

  abbrev given : Cmd Slab Ptr
  given = do kmem_add_to_task core (suc fuel) t x; o ← load_obj x; pure o.addr

  slub_alloc-given :
      {s : Slab}
      → Single core size s c x t cx
      → slub_alloc core (suc fuel) idle_task size s ≡ given (cut s x)
  unfolding slub_alloc load_fl
  slub_alloc-given {s} h =
      let cores : ltb core 4 ≡ true = ground (arith, h.here.core_ok) in
      rw (
        cores,
        ne→== ((s.fls core).cache 0) null h.here.made,
        acquire-Single h,
        ne→== x null h.x_ne,
        current-Ready idle_task h.here,
        ne→== t null h.here.t_ne,
      )

  -- The state with `x` as the only object of the task.
  abbrev taken : Slab → Slab
  taken s = record (cut s x) {
    obj = update (cut s x).obj x (record (s.obj x) { next = null });
    kernel = record s.kernel {
      ctxt = update s.kernel.ctxt cx (record (s.kernel.ctxt cx) { used_kmem = x });
    };
  }

  taken-Single : {s : Slab} → Single core size s c x t cx → Single core size (taken s) c x t cx
  taken-Single h = record {
    here = record {
      core_ok = h.here.core_ok;
      made = h.here.made;
      cache_at = h.here.cache_at;
      c_ne = h.here.c_ne;
      pid = h.here.pid;
      wq_ne = h.here.wq_ne;
      current = h.here.current;
      t_ne = h.here.t_ne;
      ctxt = h.here.ctxt;
      cx_ne = h.here.cx_ne;
    };
    first = h.first;
    x_ne = h.x_ne;
    alone = rw (eq→== x x refl);
  }

  -- What the allocation leaves where the task has no objects yet.
  given-first :
      {s : Slab}
      → Single core size s c x t cx
      → used s cx ≡ null
      → Ends
          (λ r s'.
            (r ≡ (s.obj x).addr)
            × Single core size s' c x t cx
            × (used s' cx ≡ x)
            × ((s'.obj x).addr ≡ (s.obj x).addr))
          (given (cut s x))
  unfolding kmem_add_to_task
  given-first {s} h none_yet =
      rw
        (
          load-ok s.kernel t h.here.t_ne,
          h.here.ctxt,
          load_ctxt-ok s.kernel cx h.here.cx_ne,
          set_next-ok (cut s x) x null h.x_ne,
          none_yet,
          store_ctxt-ok s.kernel cx h.here.cx_ne,
          load_obj-ok _ x h.x_ne,
          eq→== x x refl,
        )
        (ends {s = taken s}
          (refl, taken-Single h, rw (used, eq→== cx cx refl), rw (eq→== x x refl)))

  given-again :
      {s : Slab}
      → Single core size s c x t cx
      → used s cx ≡ x
      → Ends (λ r s'. (r ≡ (s.obj x).addr) × ((s'.obj x).next ≡ x)) (given (cut s x))
  unfolding kmem_add_to_task last_obj_loop
  given-again {s} h again =
      rw
        (
          load-ok s.kernel t h.here.t_ne,
          h.here.ctxt,
          load_ctxt-ok s.kernel cx h.here.cx_ne,
          set_next-ok (cut s x) x null h.x_ne,
          again,
          ne→== x null h.x_ne,
          load_obj-ok _ x h.x_ne,
          eq→== x x refl,
          set_next-ok _ x x h.x_ne,
          load_obj-ok _ x h.x_ne,
          eq→== x x refl,
        )
        (ends (refl, rw (eq→== x x refl)))

  -- A core has one object `x` left in its cache for a size of at most 1024, and its current task
  -- has no objects. Two allocations of that size both end and return the address of `x`, and `x`
  -- is then followed by itself in the task's list.
  pub slub_alloc-twice :
      {s : Slab}
      → Single core size s c x t cx
      → used s cx ≡ null
      → Ends
          (λ (r : Ptr × Ptr) s'.
            (r.0 ≡ (s.obj x).addr) × (r.1 ≡ (s.obj x).addr) × ((s'.obj x).next ≡ x))
          ((do
            a ← slub_alloc core (suc fuel) idle_task size
            b ← slub_alloc core (suc fuel) idle_task size
            pure (a, b))
            s)
  slub_alloc-twice {s} h none_yet = rw (slub_alloc-given h) (
      after (given-first h none_yet) λ a u (ea, h', again, same).
        rw (slub_alloc-given h')
          (after (given-again h' again) λ b v (eb, tied). ends (ea, eb ∙ same, tied)))
