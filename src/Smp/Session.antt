-- ===== src/Smp/Session.antt =====
-- A queue from its creation to its end: `set_job_queue_head`, `__init_worker`, `push_worker_job` and
-- the loop of `worker_process`.
use hob_os.Base.{ℕ, ◌+◌, ◌*◌, ◌≤◌, ◌≡◌, ◌≢◌, ◌∙◌, refl, sym, ap, List, [], ◌∷◌, ◌++◌, update, arith}
use hob_os.Base.Run.{Cmd, ok, ◌>>=◌, ◌>>◌, Ends, after, weaken}
use hob_os.Mm.{kmalloc, kfree}
use hob_os.Slub.{Slab}
use hob_os.Task.{Ptr, null}
use hob_os.Smp.{
  Smp, Worker, smp_spintable_base, set_job_queue_head, push_worker_job, init_worker, worker_loop,
}
use hob_os.Smp.Order.{store_worker-ok, worker_loop-Drained}
use hob_os.Smp.Queue.{Queue, fn_of, set_job_queue_head-Queue, push_worker_job-Pushed}

-- The worker as `__init_worker` sets it
abbrev worker_of : ℕ → Ptr → Worker
worker_of core h = record {
  core_id = core;
  mutex0 = 0;
  mutex1 = 0;
  exec_addr = smp_spintable_base + 8 * core;
  jobs = h;
}

abbrev with_worker : Smp → ℕ → Worker → Smp
with_worker s i v = record s { smp_worker = update s.smp_worker i v }

with_worker-Queue :
    {s : Smp} {mt h : Ptr} {js : List Ptr} (i : ℕ) (w : Worker)
    → Queue s mt h js
    → Queue (with_worker s i w) mt h js
with_worker-Queue i w q = record {
  linked = q.linked;
  distinct = q.distinct;
  has_meta = q.has_meta;
  meta_ne = q.meta_ne;
  head = q.head;
  tail = q.tail;
}

module _ (core k : ℕ) (idle_task : Ptr) where
  -- Two jobs for the worker `core`, which then executes them
  abbrev pub session : ℕ → Ptr → Ptr → Cmd Smp (Unit {0})
  session n fn1 fn2 = do
    h ← set_job_queue_head core k idle_task fn1
    init_worker core h
    push_worker_job core k idle_task h fn2
    worker_loop core k idle_task n

  -- The core number is at most 3. `kmalloc` gives the job `h`, the data `mt` and the job `n`, none of
  -- them at NULL and both jobs apart, and `kfree` of the first job ends. Then a queue that is made of a
  -- job for `fn1`, to which one for `fn2` is pushed, is drained by the loop of `worker_process` with fuel
  -- for two jobs; it has executed `fn1` and then `fn2`, each once.
  pub session-order :
      (fuel : ℕ) (s : Smp) (fn1 fn2 h mt n : Ptr) (hp1 hp2 hp3 hp4 : Slab)
      → core ≤ 3
      → 2 ≤ fuel
      → kmalloc core k idle_task 32 s.heap ≡ ok h hp1
      → kmalloc core k idle_task 16 hp1 ≡ ok mt hp2
      → kmalloc core k idle_task 32 hp2 ≡ ok n hp3
      → kfree core k idle_task h hp3 ≡ ok tt hp4
      → (h ≢ null) × (mt ≢ null) × (n ≢ null) × (n ≢ h)
      → Ends (λ _ v. v.executed ≡ s.executed ++ fn1 ∷ fn2 ∷ []) (session fuel fn1 fn2 s)
  unfolding init_worker
  session-order fuel s fn1 fn2 h mt n hp1 hp2 hp3 hp4 small enough g1 g2 g3 f1 ne =
      after (set_job_queue_head-Queue core k idle_task s fn1 h mt hp1 hp2 g1 g2 ne.0 ne.1)
        λ r a facts.
          let w = worker_of core h in
          let b = with_worker a core w in
          rw (facts.0, store_worker-ok a core small w)
            (after
              (push_worker_job-Pushed core k idle_task (with_worker-Queue core w facts.1) fn2
                (rw facts.4 g3) ne.2 (ne.3, tt))
              λ _ c p.
                let jobs : (c.smp_worker core).jobs ≡ h =
                  ap (λ x. (x core).jobs) p.workers ∙ ground arith in
                let first : fn_of c h ≡ fn1 = p.fns h (λ e. ne.3 (sym e)) ∙ facts.2 in
                weaken
                  (worker_loop-Drained core k idle_task fuel c mt h (n ∷ []) small jobs p.queue
                    (hp4, rw p.heap f1, tt) (omega arith))
                  λ _ v d. d.executed ∙ rw (first, p.fn_new, p.executed, facts.3) refl)
