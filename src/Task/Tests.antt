-- ===== src/Task/Tests.antt =====
-- The theorems at a running task that has another one behind it.
use hob_os.Base.{ℕ, ◌≡◌, refl, [], ◌∷◌, ◌==◌, if◌then◌else◌, arith, false, true, ◌+◌, ◌*◌, ◌<◌}
use hob_os.Base.Run.{Ends, out_of_fuel, ◌>>=◌, ◌>>◌}
use hob_os.Task.{null, Kernel}
use hob_os.Task.Threads.{kthread_create, kthread_queue}
use hob_os.Task.Switch.{sched_switch}
use hob_os.Task.Resume.{sched_switch-fields}
use hob_os.Task.Cycle.{kthread_queue-endless}
use hob_os.Workqueue.{get_workqueue_end}
use hob_os.Workqueue.Chain.{Holds}

abbrev two : Kernel
two = record {
  task = λ a. record {
    pid = a;
    base_pt = null;
    ctxt = null;
    pc = null;
    arg = null;
    running = false;
    next = if a == 10 then 20 else null;
    completed = false;
    resume = false;
  };
  ctxt = λ _. record { sp = null; spsr = 0; x = null; pad = 0; elr = 0; used_kmem = null };
  wq = λ _. record { core_id = 0; queue = 10 };
  word = λ _. 0;
  global_wqs = λ _. 5;
  pid_cntr = 3;
  cpu = record { x = λ _. 0; sp = null; spsr_el1 = 0; elr_el1 = 0 };
}

two-Holds : Holds two 5 (10 ∷ 20 ∷ [])
two-Holds = record { wq_ne = omega arith; chain = ground arith; distinct = omega arith }

kthread_queue-endless_example :
    Ends
      (λ _ t. (k : ℕ) → get_workqueue_end k 5 t ≡ out_of_fuel)
      ((do t ← kthread_create 0 1 40 50 60 0; kthread_queue 0 9 t) two)
kthread_queue-endless_example =
    kthread_queue-endless 0 1 9 40 50 60 0 10 20 [] two-Holds (omega arith) (omega arith)
      (omega arith) (omega arith) (omega arith)

-- Task 10 and task 20, each with its context; 20 has run before.
abbrev started : Kernel
started = record two {
  task = λ a. record (two.task a) { ctxt = a + 5; running = true };
  ctxt = λ a. record { sp = a * 100; spsr = 7; x = null; pad = 0; elr = 9; used_kmem = null };
  cpu = record { x = λ r. r; sp = 0x9000; spsr_el1 = 3; elr_el1 = 0 };
}

sched_switch-fields_example :
    Ends
      (λ _ t.
        ((i : ℕ) → i < 12 → t.word (0x9000 + 8 * i) ≡ 19 + i)
        × ((t.ctxt 15).sp ≡ 0x9000)
        × (t.cpu.sp ≡ 2500)
        × (t.cpu.x 19 ≡ 2500)
        × (t.cpu.x 20 ≡ 7)
        × (t.cpu.x 21 ≡ 0)
        × (t.cpu.x 22 ≡ 0)
        × (t.cpu.x 23 ≡ 9)
        × (t.cpu.x 24 ≡ 0))
      (sched_switch 60 10 20 started)
sched_switch-fields_example =
    sched_switch-fields 60 10 20 started (omega arith) (omega arith) (omega arith) (omega arith)
      (omega arith) (omega arith) refl refl
