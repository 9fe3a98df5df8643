-- ===== src/Smp/Tests.antt =====
-- The theorems at small queues, and a short handover.
use hob_os.Base.{◌+◌, ◌≡◌, refl, List, [], ◌∷◌, ◌==◌, if◌then◌else◌, arith}
use hob_os.Base.Chain.{last}
use hob_os.Base.Run.{Run, ok, fault, out_of_fuel, Ends}
use hob_os.PageAlloc.Block.{get_block_free_list, load}
use hob_os.PageAlloc.Alloc.{
  page_free, find_block_by_pfn, find_block_loop, find_pfn_in_order, find_pfn_loop,
}
use hob_os.Task
use hob_os.Task.{Ptr, null, load_ctxt, store_ctxt}
use hob_os.Task.Threads.{get_curr_task}
use hob_os.Workqueue.{wq_get_curr, get_core_workqueue}
use hob_os.Slub
use hob_os.Slub.{
  store_cache, Slab, load_fl, order_offset, kmem_get_obj_order, obj_order_loop, extract_loop,
  load_obj, store_obj, last_obj_loop, load_cache, kmem_extract_obj_child,
}
use hob_os.Slub.Cache.{
  kmem_reclaim_obj, kmem_add_obj, slub_alloc, slub_free, kmem_acquire_obj, kmem_extract_obj_from_fl,
  kmem_get_curr_cache, kmem_extract_obj_from_cache, kmem_add_to_task, kmem_extract_obj,
  kmem_get_obj_parent,
}
use hob_os.Slub.Sample.{sample}
use hob_os.Mm.{kmalloc, kfree}
use hob_os.Smp.{Smp, worker_loop, jobs_head, jobs_tail}
use hob_os.Smp.Handoff.{Event, call, park_and_wait, run, step, set_up, before_setup}
use hob_os.Smp.Phases.{InOrder, run-InOrder}
use hob_os.Smp.Order.{Drained, worker_loop-Drained}
use hob_os.Smp.Session.{session, session-order}
use hob_os.Smp.Queue.{Queue}

abbrev heap_of : {A : Type 0} → Run Slab A → Slab
heap_of (ok a h) = h
heap_of fault = sample
heap_of out_of_fuel = sample

abbrev heap_1 : Slab
heap_1 = heap_of (kmalloc 1 9 9 32 sample)

heap_1_run : kmalloc 1 9 9 32 sample ≡ ok 0x80c9 heap_1
unfolding kmalloc slub_alloc load_fl order_offset kmem_get_obj_order obj_order_loop extract_loop
    load_obj store_obj last_obj_loop load_cache kmem_acquire_obj kmem_extract_obj_from_fl
    kmem_get_curr_cache kmem_extract_obj_from_cache kmem_add_to_task Slub.set_next Task.load
    load_ctxt store_ctxt get_curr_task wq_get_curr get_core_workqueue
heap_1_run = refl

abbrev heap_2 : Slab
heap_2 = heap_of (kmalloc 1 9 9 16 heap_1)

heap_2_run : kmalloc 1 9 9 16 heap_1 ≡ ok 0x80c8 heap_2
unfolding kmalloc slub_alloc load_fl order_offset kmem_get_obj_order obj_order_loop extract_loop
    load_obj store_obj last_obj_loop load_cache kmem_acquire_obj kmem_extract_obj_from_fl
    kmem_get_curr_cache kmem_extract_obj_from_cache kmem_add_to_task Slub.set_next Task.load
    load_ctxt store_ctxt get_curr_task wq_get_curr get_core_workqueue
heap_2_run = refl

-- The page allocator and the task know nothing of this address.
free_run : kfree 1 9 9 0x10 sample ≡ ok tt sample
unfolding kfree slub_free get_curr_task wq_get_curr get_core_workqueue kmem_extract_obj
    kmem_get_obj_parent kmem_extract_obj_child Task.load load_ctxt page_free find_block_by_pfn
    find_block_loop find_pfn_in_order find_pfn_loop get_block_free_list load
free_run = refl

-- Two jobs of core 1, at 0x10 and 0x20
abbrev two_jobs : Smp
two_jobs = record {
  job = λ a.
      if a == 0x10
      then record { fn_addr = 0x1000; next = 0x20; meta = 0x30; job_pos = jobs_head }
      else record { fn_addr = 0x2000; next = null; meta = null; job_pos = jobs_tail };
  meta = λ _. record { head = 0x10; tail = 0x20 };
  smp_worker = λ i. record { core_id = i; mutex0 = 1; mutex1 = 1; exec_addr = 0xe0; jobs = 0x10 };
  heap = sample;
  executed = [];
}

two_jobs-Queue : Queue two_jobs 0x30 0x10 (0x20 ∷ [])
unfolding last
two_jobs-Queue = record {
  linked = (refl, omega arith, (refl, omega arith, refl));
  distinct = omega arith;
  has_meta = refl;
  meta_ne = omega arith;
  head = refl;
  tail = refl;
}

worker_loop-Drained_example :
    Ends (λ _ v. Drained 1 9 9 0x30 0x10 (0x20 ∷ []) two_jobs v) (worker_loop 1 9 9 5 two_jobs)
worker_loop-Drained_example =
    worker_loop-Drained 1 9 9 5 two_jobs 0x30 0x10 (0x20 ∷ []) (omega arith) refl two_jobs-Queue
      (sample, free_run, tt) (omega arith)

abbrev some_steps : List Event
some_steps = park_and_wait ∷ call ∷ park_and_wait ∷ park_and_wait ∷ call ∷ call ∷ []

run-InOrder_example :
    InOrder 2 0x80000 0x90000 (run 2 0x80000 0x90000 some_steps (set_up 2 0x80000 0x90000))
run-InOrder_example = run-InOrder 2 0x80000 0x90000 (omega arith) (omega arith) some_steps

abbrev seven : List Event
seven =
    call ∷ park_and_wait ∷ park_and_wait ∷ call ∷ call ∷ park_and_wait ∷ park_and_wait ∷ call ∷ call
    ∷ park_and_wait ∷ park_and_wait ∷ call ∷ call ∷ park_and_wait ∷ []

-- The core finds the address before `__setup_core` has taken the second mutex, and gives it back
-- before that. Then it calls `jump_to_EL1` a second time.
abbrev early : List Event
early = call ∷ call ∷ park_and_wait ∷ park_and_wait ∷ park_and_wait ∷ call ∷ park_and_wait ∷ []

early_run : (run 2 0x80000 0x90000 early before_setup).started ≡ 0x80000 ∷ []
unfolding run step
early_run = refl

-- Four objects are left.
abbrev four_left : Slab
four_left = record sample {
  obj = λ a. record {
    addr = 0x8000 + a;
    order = 6;
    parent_core_id = 1;
    parent_cache = 100;
    next = if a == 203 then null else a + 1;
  };
}

abbrev left_3 : Slab
left_3 = heap_of (kmalloc 1 9 9 32 four_left)

abbrev left_2 : Slab
left_2 = heap_of (kmalloc 1 9 9 16 left_3)

abbrev left_1 : Slab
left_1 = heap_of (kmalloc 1 9 9 32 left_2)

abbrev given_back : Slab
given_back = heap_of (kfree 1 9 9 0x80cb left_1)

left_run :
    (kmalloc 1 9 9 32 four_left ≡ ok 0x80cb left_3)
    × (kmalloc 1 9 9 16 left_3 ≡ ok 0x80ca left_2)
    × (kmalloc 1 9 9 32 left_2 ≡ ok 0x80c9 left_1)
unfolding kmalloc slub_alloc load_fl order_offset kmem_get_obj_order obj_order_loop extract_loop
    load_obj store_obj last_obj_loop load_cache kmem_acquire_obj kmem_extract_obj_from_fl
    kmem_get_curr_cache kmem_extract_obj_from_cache kmem_add_to_task Slub.set_next Task.load
    load_ctxt store_ctxt get_curr_task wq_get_curr get_core_workqueue
left_run = (refl, refl, refl)

given_back_run : kfree 1 9 9 0x80cb left_1 ≡ ok tt given_back
unfolding kfree slub_free kmem_extract_obj kmem_get_obj_parent kmem_extract_obj_child
    kmem_reclaim_obj kmem_add_obj store_cache kmalloc slub_alloc load_fl order_offset
    kmem_get_obj_order obj_order_loop extract_loop load_obj store_obj last_obj_loop load_cache
    kmem_acquire_obj kmem_extract_obj_from_fl kmem_get_curr_cache kmem_extract_obj_from_cache
    kmem_add_to_task Slub.set_next Task.load load_ctxt store_ctxt get_curr_task wq_get_curr
    get_core_workqueue
given_back_run = refl

abbrev no_jobs : Smp
no_jobs = record two_jobs { heap = four_left }

session-order_example :
    Ends (λ _ v. v.executed ≡ 0x1000 ∷ 0x2000 ∷ []) (session 1 9 9 5 0x1000 0x2000 no_jobs)
session-order_example =
    session-order 1 9 9 5 no_jobs 0x1000 0x2000 0x80cb 0x80ca 0x80c9 left_3 left_2 left_1 given_back
      (omega arith) (omega arith) left_run.0 left_run.1 left_run.2 given_back_run
      (omega arith, omega arith, omega arith, omega arith)
