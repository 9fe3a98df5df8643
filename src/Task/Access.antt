-- ===== src/Task/Access.antt =====
-- The accesses through a pointer that is not NULL, as equations.
use hob_os.Base.{◌≡◌, ◌≢◌, update, ne→==}
use hob_os.Base.Run.{ok}
use hob_os.Task.{
  Ptr, null, Task, Kernel, Ctxt, load, store, load_ctxt, store_ctxt, set_next, load_queue,
  set_queue,
}

module _ (s : Kernel) (p : Ptr) (ne : p ≢ null) where
  pub load-ok : load p s ≡ ok (s.task p) s
  unfolding load
  load-ok = rw (ne→== p null ne)

  pub store-ok : (v : Task) → store p v s ≡ ok tt (record s { task = update s.task p v })
  unfolding store
  store-ok v = rw (ne→== p null ne)

  pub set_next-ok :
      (q : Ptr)
      → set_next p q s
        ≡ ok tt (record s { task = update s.task p (record (s.task p) { next = q }) })
  unfolding set_next
  set_next-ok q = rw (ne→== p null ne) (rw (ne→== p null ne))

  pub load_queue-ok : load_queue p s ≡ ok (s.wq p).queue s
  unfolding load_queue
  load_queue-ok = rw (ne→== p null ne)

  pub set_queue-ok :
      (q : Ptr)
      → set_queue p q s ≡ ok tt (record s { wq = update s.wq p (record (s.wq p) { queue = q }) })
  unfolding set_queue
  set_queue-ok q = rw (ne→== p null ne)

  pub load_ctxt-ok : load_ctxt p s ≡ ok (s.ctxt p) s
  unfolding load_ctxt
  load_ctxt-ok = rw (ne→== p null ne)

  pub store_ctxt-ok : (c : Ctxt) → store_ctxt p c s ≡ ok tt (record s { ctxt = update s.ctxt p c })
  unfolding store_ctxt
  store_ctxt-ok c = rw (ne→== p null ne)
