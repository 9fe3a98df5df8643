-- ===== src/Task/Switch.antt =====
-- sched.c: `sched_switch`, `yield` and `__handle_sched_irq`.
use hob_os.Base.{
  ℕ, zero, suc, ◌+◌, ◌-◌, ◌*◌, true, false, ◌||◌, ◌==◌, ltb, Option, none, some, if◌then◌else◌,
}
use hob_os.Base.Run.{Cmd, ok, fault, pure, gets, ◌>>=◌, ◌>>◌}
use hob_os.Task.{Ptr, null, Kernel, load, store, load_ctxt, store_ctxt, store_word, load_queue}
use hob_os.Task.Threads.{get_curr_task, kthread_start}
use hob_os.Workqueue.{wq_get_curr, wq_is_empty, wq_queue_next}

-- `stp` of x19 to x30 at `sp`: the first argument is the registers left to store.
unfoldable pub save_regs : ℕ → Ptr → Cmd Kernel (Unit {0})
save_regs zero sp = pure tt
save_regs (suc n) sp = do x ← gets (λ s. s.cpu.x); store_word sp n (x (19 + n)); save_regs n sp

-- The word `i` of the memory at the object `ctxt`: the six fields of `struct ctxt`, and what stands
-- behind it.
unfoldable pub ctxt_word : Kernel → Ptr → ℕ → ℕ
ctxt_word s c i =
    if i == 0
    then (s.ctxt c).sp
    else (if i == 1
        then (s.ctxt c).spsr
        else (if i == 2
            then (s.ctxt c).x
            else (if i == 3
                then (s.ctxt c).pad
                else (if i == 4
                    then (s.ctxt c).elr
                    else (if i == 5 then (s.ctxt c).used_kmem else s.word (c + 8 * i))))))

-- `ldp` of x19 to x30 from the address `ctxt`, then `spsr_el1` and `sp`.
unfoldable pub restore_regs : Ptr → Cmd Kernel (Unit {0})
restore_regs c s = ok tt (record s {
  cpu = record (s.cpu) {
    x = λ r. if ltb r 19 || ltb 30 r then s.cpu.x r else ctxt_word s c (r - 19);
    spsr_el1 = (s.ctxt c).spsr;
    sp = (s.ctxt c).sp;
  };
})

module _ (ret_from_fork : Ptr) where
  -- `fail` does not return. The `ret` at the end jumps to x30.
  unfoldable pub sched_switch : Ptr → Ptr → Cmd Kernel (Unit {0})
  sched_switch prev next = do
    p ← load prev
    c ← load_ctxt p.ctxt
    cpu ← gets Kernel.cpu
    store_ctxt p.ctxt (record c { sp = cpu.sp; spsr = cpu.spsr_el1 })
    save_regs 12 cpu.sp
    p ← load prev
    if p.resume then store prev (record p { resume = false }) else do
      n ← load next
      store next (record n { resume = true })
      started ← kthread_start ret_from_fork next
      n ← load next
      c ← load_ctxt n.ctxt
      restore_regs n.ctxt

  module _ (core : ℕ) (idle_task : Ptr) where
    unfoldable pub yield : ℕ → Cmd Kernel (Unit {0})
    yield fuel = do
      wq ← wq_get_curr core
      t ← get_curr_task core idle_task
      if wq == null then (λ _. fault) else do
        empty ← wq_is_empty wq
        if empty then pure tt else do
          q ← load_queue wq
          v ← load q
          if v.next == null then pure tt else do
            next ← wq_queue_next fuel wq
            let prev = if t == null then idle_task else t
            sched_switch prev (if next == null then prev else next)

    -- The timer interrupt: `none` stands for the `eret`. The timer is reset in between.
    unfoldable pub handle_sched_irq : ℕ → Ptr → Cmd Kernel (Option Ptr)
    handle_sched_irq fuel sp = do
      wq ← wq_get_curr core
      t ← get_curr_task core idle_task
      v ← load t
      c ← load_ctxt v.ctxt
      store_ctxt v.ctxt (record c { sp = sp })
      next ← wq_queue_next fuel wq
      if next == null then pure none else do
        empty ← wq_is_empty wq
        if empty then pure none else do
          started ← kthread_start ret_from_fork next
          n ← load next
          c ← load_ctxt n.ctxt
          pure (some c.sp)
