-- ===== src/Workqueue/Tests.antt =====
-- Runs on a queue of three tasks, of which the second has completed, and the theorems there.
use hob_os.Base.{◌≡◌, refl, [], ◌∷◌, ◌==◌, if◌then◌else◌, arith, false}
use hob_os.Base.Run.{Ends}
use hob_os.Task.{Ptr, null, Task, Kernel}
use hob_os.Workqueue.{wq_push, wq_queue_next}
use hob_os.Workqueue.Chain.{Holds, OnlyQueue}
use hob_os.Workqueue.Ops.{wq_push-append}
use hob_os.Workqueue.Rotate.{wq_queue_next-turn, turns, turns-round, unfinished}

abbrev task : Ptr → Task
task a = record {
  pid = a;
  base_pt = null;
  ctxt = null;
  pc = null;
  arg = null;
  running = false;
  next = if a == 10 then 20 else (if a == 20 then 30 else null);
  completed = a == 20;
  resume = false;
}

-- The queue of core 0 stands at the address 5.
abbrev three : Kernel
three = record {
  task = task;
  ctxt = λ _. record { sp = null; spsr = 0; x = null; pad = 0; elr = 0; used_kmem = null };
  wq = λ _. record { core_id = 0; queue = 10 };
  word = λ _. 0;
  global_wqs = λ _. 5;
  pid_cntr = 7;
  cpu = record { x = λ _. 0; sp = null; spsr_el1 = 0; elr_el1 = 0 };
}

three-Holds : Holds three 5 (10 ∷ 20 ∷ 30 ∷ [])
three-Holds = record { wq_ne = omega arith; chain = ground arith; distinct = omega arith }

wq_queue_next-turn_example :
    Ends
      (λ r s'. Holds s' 5 (20 ∷ 30 ∷ 10 ∷ []) × (r ≡ 20) × OnlyQueue 5 three s')
      (wq_queue_next 9 5 three)
wq_queue_next-turn_example = wq_queue_next-turn 9 (10 ∷ 20 ∷ 30 ∷ []) three-Holds (omega arith)

turns-round_example :
    Ends (λ _ s'. Holds s' 5 (10 ∷ 30 ∷ []) × OnlyQueue 5 three s') (turns 3 9 5 three)
unfolding unfinished
turns-round_example = turns-round 9 (10 ∷ 20 ∷ 30 ∷ []) three-Holds (omega arith)

wq_push-append_example :
    Ends (λ _ s'. Holds s' 5 (10 ∷ 20 ∷ 30 ∷ 40 ∷ []) × OnlyQueue 5 three s') (wq_push 9 5 40 three)
wq_push-append_example =
    wq_push-append 9 40 (10 ∷ 20 ∷ 30 ∷ []) three-Holds (omega arith) (omega arith) refl
      (omega arith)
