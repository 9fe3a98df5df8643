-- ===== src/Task/Threads.antt =====
-- task.c: creation, queueing, start and completion of tasks.
-- `core` is the running core. `new_task` and `new_ctxt` are what `kmalloc` returns in `clone`; what
-- `kmalloc` does to the allocators and to `used_kmem` is not modelled.
use hob_os.Base.{
  ℕ, ◌+◌, ◌-◌, ◌*◌, ◌%◌, ◌^◌, Bool, true, false, ◌||◌, ◌&&◌, leb, ◌==◌, if◌then◌else◌,
}
use hob_os.Base.Int.{ℤ, pos, negsuc}
use hob_os.Base.Run.{Cmd, ok, pure, gets, modify, ◌>>=◌, ◌>>◌}
use hob_os.Task.{
  Ptr, null, Ctxt, Task, Kernel, load, store, load_ctxt, store_ctxt, store_word, load_queue,
}
use hob_os.Workqueue.{wq_get_curr, wq_push}

abbrev zero_task : Task
zero_task = record {
  pid = 0;
  base_pt = null;
  ctxt = null;
  pc = null;
  arg = null;
  running = false;
  next = null;
  completed = false;
  resume = false;
}

abbrev zero_ctxt : Ctxt
zero_ctxt = record { sp = null; spsr = 0; x = null; pad = 0; elr = 0; used_kmem = null }

-- The offset of `stack[8192]` in a `struct task`.
abbrev pub stack_end : ℕ
stack_end = 58 + 8192

-- The lock `pid_mutex` is held round the two accesses.
unfoldable pub assign_new_pid : Cmd Kernel ℕ
assign_new_pid s = ok s.pid_cntr (record s { pid_cntr = (s.pid_cntr + 1) % 2 ^ 32 })

-- A word inside the array `stack` of the task at `t`
abbrev in_stack : Ptr → ℕ → Bool
in_stack t a = leb (t + (stack_end - 8192)) a && leb (a + 8) (t + stack_end)

-- What `memset` of a task to 0 makes of its stack
unfoldable pub clear_stack : Ptr → Cmd Kernel (Unit {0})
clear_stack t = modify (λ s. record s { word = λ a. if in_stack t a then 0 else s.word a })

-- What `memcpy` of the task at `from` to `t` makes of the stack
unfoldable pub copy_stack : Ptr → Ptr → Cmd Kernel (Unit {0})
copy_stack t from =
    modify
      (λ s. record s { word = λ a. if in_stack t a then s.word (from + (a - t)) else s.word a })

unfoldable pub clone : Ptr → Ptr → Ptr → Cmd Kernel Ptr
unfolding assign_new_pid
clone new_task new_ctxt task = if task == null then pure null else do
  store new_task zero_task
  clear_stack new_task
  store_ctxt new_ctxt zero_ctxt
  if new_task == null then pure null else do
    v ← load task
    store new_task v
    copy_stack new_task task
    pid ← assign_new_pid
    v ← load new_task
    store new_task (record v { pid = pid })
    c ← load_ctxt new_ctxt
    store_ctxt new_ctxt (record c { sp = new_task + stack_end })
    v ← load new_task
    store new_task (record v { ctxt = new_ctxt })
    pure new_task

module _ (core : ℕ) (idle_task : Ptr) where
  unfoldable pub get_curr_task : Cmd Kernel Ptr
  get_curr_task = do
    wq ← wq_get_curr core
    cntr ← gets Kernel.pid_cntr
    if (cntr == 1) || (wq == null) then pure idle_task else load_queue wq

  unfoldable pub kthread_create : Ptr → Ptr → Ptr → Ptr → Cmd Kernel Ptr
  kthread_create new_task new_ctxt thread_fn arg = do
    t ← get_curr_task
    new_t ← clone new_task new_ctxt t
    if new_t == null then pure null else do
      v ← load new_t
      store new_t (record v { pc = thread_fn; running = false; resume = false; arg = arg })
      pure new_t

unfoldable pub mark_completed : Ptr → Cmd Kernel (Unit {0})
mark_completed t = do v ← load t; store t (record v { resume = false; completed = true })

-- `ret_from_fork` is the address of `kthread_ret_from_fork`.
unfoldable pub kthread_init_stack : Ptr → Ptr → Cmd Kernel (Unit {0})
kthread_init_stack ret_from_fork t = do
  v ← load t
  c ← load_ctxt v.ctxt
  let sp = (c.sp + 2 ^ 64 - 16 * 6) % 2 ^ 64
  store_ctxt v.ctxt (record c { sp = sp })
  store_word sp 0 v.pc
  store_word sp 1 v.arg
  store_word sp 11 ret_from_fork
  modify (λ s. record s { cpu = record s.cpu { elr_el1 = ret_from_fork } })
  v ← load t
  store t (record v { running = true; resume = false })

unfoldable pub kthread_queue : ℕ → ℕ → Ptr → Cmd Kernel (Unit {0})
kthread_queue core fuel t = do wq ← wq_get_curr core; wq_push fuel wq t

unfoldable pub is_running : Ptr → Cmd Kernel Bool
is_running t = do v ← load t; pure v.running

-- Interrupts are masked between `irq_save` and `irq_restore`.
unfoldable pub kthread_start : Ptr → Ptr → Cmd Kernel ℤ
kthread_start ret_from_fork t = if t == null then pure (negsuc 0) else do
  running ← is_running t
  if running then pure tt else kthread_init_stack ret_from_fork t
  pure (pos 0)

-- The end of `kthread_ret_from_fork`, behind the return of the thread's function.
unfoldable pub kthread_finish : ℕ → Ptr → Cmd Kernel (Unit {0})
kthread_finish core idle_task = do t ← get_curr_task core idle_task; mark_completed t
