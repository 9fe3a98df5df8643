-- ===== src/Workqueue.antt =====
-- workqueue.c: the queue of tasks of a core, linked through `task.next`.
pub mod Chain
pub mod Ops
pub mod Rotate
mod Tests
use hob_os.Base.{ℕ, zero, suc, ◌==◌, if◌then◌else◌, Bool, not}
use hob_os.Base.Run.{Cmd, ok, out_of_fuel, pure, ◌>>=◌, ◌>>◌}
use hob_os.Task.{Ptr, null, Kernel, load, set_next, load_queue, set_queue}

unfoldable pub get_core_workqueue : ℕ → Cmd Kernel Ptr
get_core_workqueue core_id s = ok (s.global_wqs core_id) s

-- `core` is the number that `curr_core_id` reads from the processor.
unfoldable pub wq_get_curr : ℕ → Cmd Kernel Ptr
unfolding get_core_workqueue
wq_get_curr core = get_core_workqueue core

wq_is_not_empty : Ptr → Cmd Kernel Bool
wq_is_not_empty wq = do q ← load_queue wq; pure (not (q == null))

unfoldable pub wq_is_empty : Ptr → Cmd Kernel Bool
unfolding wq_is_not_empty
wq_is_empty wq = do e ← wq_is_not_empty wq; pure (not e)

-- `has_completed` of task.c
unfoldable pub has_completed : Ptr → Cmd Kernel Bool
has_completed t = do v ← load t; pure v.completed

-- `task_free` of task.c has no statement but comments.
unfoldable pub task_free : Ptr → Cmd Kernel (Unit {0})
task_free t = pure tt

unfoldable pub wq_pop : Ptr → Cmd Kernel Ptr
unfolding wq_is_empty has_completed task_free
wq_pop wq = do
  empty ← wq_is_empty wq
  if empty then pure null else do
    t ← load_queue wq
    v ← load t
    set_queue wq v.next
    set_next t null
    completed ← has_completed t
    if completed then (do task_free t; pure null) else pure t

-- The walk `while (t->next) t = t->next`, on fuel.
unfoldable pub end_loop : ℕ → Ptr → Cmd Kernel Ptr
end_loop zero t = λ _. out_of_fuel
end_loop (suc k) t = do v ← load t; if v.next == null then pure t else end_loop k v.next

unfoldable pub get_workqueue_end : ℕ → Ptr → Cmd Kernel Ptr
unfolding end_loop
get_workqueue_end fuel wq = do t ← load_queue wq; if t == null then pure null else end_loop fuel t

unfoldable pub wq_push : ℕ → Ptr → Ptr → Cmd Kernel (Unit {0})
wq_push fuel wq t = do
  tail_t ← get_workqueue_end fuel wq
  if tail_t == null then (do set_queue wq t; set_next t null) else set_next tail_t t

-- `wq_print` prints nothing without DEBUG, and stands as the walk that it makes.
print_loop : ℕ → Ptr → Cmd Kernel (Unit {0})
print_loop zero t = λ _. out_of_fuel
print_loop (suc k) t = if t == null then pure tt else do v ← load t; print_loop k v.next

unfoldable pub wq_print : ℕ → Ptr → Cmd Kernel (Unit {0})
unfolding print_loop
wq_print fuel wq = do t ← load_queue wq; print_loop fuel t

unfoldable pub wq_queue_next : ℕ → Ptr → Cmd Kernel Ptr
wq_queue_next fuel wq = do
  t ← wq_pop wq
  if t == null then pure tt else wq_push fuel wq t
  t ← load_queue wq
  wq_print fuel wq
  pure t
