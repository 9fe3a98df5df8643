-- ===== src/Smp.antt =====
-- smp.c and include/hobos/smp.h: the jobs of the worker cores. The state has the jobs and the data
-- of the queues by address, the array `smp_worker`, the words of the spin table, the heap of
-- `kmalloc`, and the functions that have been executed, by address. `core`, `fuel` and `idle_task`
-- are as in Slub/Cache.antt. What a job does, and the messages, are not modelled.
pub mod Handoff
pub mod Phases
pub mod Order
pub mod Queue
pub mod Session
mod Tests
use hob_os.Base.{
  ℕ, zero, suc, ◌+◌, ◌*◌, ◌%◌, ◌^◌, List, [], ◌∷◌, ◌++◌, Bool, ltb, ◌==◌, if◌then◌else◌, update,
}
use hob_os.Base.Int.{ℤ, pos, negsuc}
use hob_os.Base.Run.{Run, Cmd, ok, fault, out_of_fuel, pure, gets, modify, ◌>>=◌, ◌>>◌}
use hob_os.Slub.{Slab}
use hob_os.Mm.{kmalloc, kfree}
use hob_os.Task.{Ptr, null}

abbrev pub max_remote_core_id : ℕ
max_remote_core_id = 3

abbrev pub smp_spintable_base : ℕ
smp_spintable_base = 0xD8

abbrev pub jobs_head : ℕ
jobs_head = 0xFA

abbrev pub jobs_tail : ℕ
jobs_tail = 0xAF

pub record JobsMeta : Type 0 where
  pub head : Ptr
  pub tail : Ptr

pub record WorkerJob : Type 0 where
  pub fn_addr : Ptr
  pub next : Ptr
  pub meta : Ptr
  pub job_pos : ℕ

-- `mutex0` and `mutex1` are the elements of `mutex`.
pub record Worker : Type 0 where
  pub core_id : ℕ
  pub mutex0 : ℕ
  pub mutex1 : ℕ
  pub exec_addr : Ptr
  pub jobs : Ptr

pub record Smp : Type 0 where
  pub job : Ptr → WorkerJob
  pub meta : Ptr → JobsMeta
  pub smp_worker : ℕ → Worker
  pub heap : Slab
  pub executed : List Ptr

unfoldable pub load_job : Ptr → Cmd Smp WorkerJob
load_job j s = if j == null then fault else ok (s.job j) s

unfoldable pub store_job : Ptr → WorkerJob → Cmd Smp (Unit {0})
store_job j v s = if j == null then fault else ok tt (record s { job = update s.job j v })

unfoldable pub load_meta : Ptr → Cmd Smp JobsMeta
load_meta m s = if m == null then fault else ok (s.meta m) s

unfoldable pub store_meta : Ptr → JobsMeta → Cmd Smp (Unit {0})
store_meta m v s = if m == null then fault else ok tt (record s { meta = update s.meta m v })

-- The array has `MAX_REMOTE_CORE_ID + 1` elements.
unfoldable pub load_worker : ℕ → Cmd Smp Worker
load_worker i s = if ltb max_remote_core_id i then fault else ok (s.smp_worker i) s

unfoldable pub store_worker : ℕ → Worker → Cmd Smp (Unit {0})
store_worker i v s =
    if ltb max_remote_core_id i
    then fault
    else ok tt (record s { smp_worker = update s.smp_worker i v })

module _ {A : Type 0} where
  abbrev with_heap : Smp → Run Slab A → Run Smp A
  with_heap s (ok a t) = ok a (record s { heap = t })
  with_heap s fault = fault
  with_heap s out_of_fuel = out_of_fuel

  -- Code of the allocators
  abbrev pub on_heap : Cmd Slab A → Cmd Smp A
  on_heap m s = with_heap s (m s.heap)

-- A call of the function at `fn`
unfoldable pub execute : Ptr → Cmd Smp (Unit {0})
execute fn = modify (λ s. record s { executed = s.executed ++ fn ∷ [] })

abbrev pub zero_job : WorkerJob
zero_job = record { fn_addr = null; next = null; meta = null; job_pos = 0 }

module _ (core fuel : ℕ) (idle_task : Ptr) where
  unfoldable pub pop_worker_job : ℕ → Cmd Smp (Unit {0})
  pop_worker_job w = do
    v ← load_worker w
    let head = v.jobs
    h ← load_job head
    let next_job = h.next
    n ← load_job next_job
    store_job next_job (record n { meta = h.meta })
    m ← load_meta h.meta
    store_meta h.meta (record m { head = next_job })
    n ← load_job next_job
    store_job next_job (record n { job_pos = jobs_head })
    store_worker w (record v { jobs = next_job })
    on_heap (kfree core fuel idle_task head)

  -- The size of a `struct worker_job` is 32.
  unfoldable pub create_job : Ptr → Cmd Smp Ptr
  create_job fn = do
    job ← on_heap (kmalloc core fuel idle_task 32)
    if job == null then pure null else do
      store_job job zero_job
      v ← load_job job
      store_job job (record v { fn_addr = fn })
      pure job

  unfoldable pub push_worker_job : Ptr → Ptr → Cmd Smp (Unit {0})
  push_worker_job head fn = do
    h ← load_job head
    if h.meta == null then pure tt else do
      n ← create_job fn
      m ← load_meta h.meta
      t ← load_job m.tail
      store_job m.tail (record t { next = n })
      t ← load_job m.tail
      if t.job_pos == jobs_head then pure tt else store_job m.tail (record t { job_pos = 0 })
      v ← load_job n
      store_job n (record v { job_pos = jobs_tail })
      m ← load_meta h.meta
      store_meta h.meta (record m { tail = n })

  -- The value is `*job`. The size of a `struct jobs_meta` is 16.
  unfoldable pub set_job_queue_head : Ptr → Cmd Smp Ptr
  set_job_queue_head fn_addr = do
    job ← create_job fn_addr
    meta ← on_heap (kmalloc core fuel idle_task 16)
    v ← load_job job
    store_job job (record v { meta = meta })
    if meta == null then pure job else do
      v ← load_job job
      store_job job (record v { job_pos = jobs_head })
      m ← load_meta meta
      store_meta meta (record m { head = job; tail = job })
      pure job

  -- The loop of `worker_process`; the first argument is fuel.
  unfoldable pub worker_loop : ℕ → Cmd Smp (Unit {0})
  worker_loop zero = λ _. out_of_fuel
  worker_loop (suc n) = do
    w ← load_worker core
    j ← load_job w.jobs
    execute j.fn_addr
    w ← load_worker core
    j ← load_job w.jobs
    if j.next == null then pure tt else (do pop_worker_job core; worker_loop n)

unfoldable pub init_worker : ℕ → Ptr → Cmd Smp (Unit {0})
init_worker core jobs = store_worker core (record {
  core_id = core;
  mutex0 = 0;
  mutex1 = 0;
  exec_addr = smp_spintable_base + 8 * core;
  jobs = jobs;
})
