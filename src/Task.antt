-- ===== src/Task.antt =====
-- `struct task`, `struct ctxt` (include/hobos/task.h), `struct workqueue`
-- (include/hobos/workqueue.h), and the memory that they live in.
pub mod Access
pub mod Threads
pub mod Switch
pub mod Cycle
pub mod Resume
mod Tests
use hob_os.Base.{ℕ, ◌+◌, ◌*◌, ◌==◌, if◌then◌else◌, update, Bool}
use hob_os.Base.Run.{Cmd, fault, ok, pure, gets, modify, ◌>>=◌, ◌>>◌}

-- Addresses; 0 is NULL.
abbrev pub Ptr : Type 0
Ptr = ℕ

abbrev pub null : Ptr
null = 0

pub record Ctxt : Type 0 where
  pub sp : Ptr
  pub spsr : ℕ
  pub x : Ptr
  pub pad : ℕ
  pub elr : ℕ
  pub used_kmem : Ptr

-- The array `stack` is part of the raw memory (`Kernel.word`).
pub record Task : Type 0 where
  pub pid : ℕ
  pub base_pt : Ptr
  pub ctxt : Ptr
  pub pc : Ptr
  pub arg : Ptr
  pub running : Bool
  pub next : Ptr
  pub completed : Bool
  pub resume : Bool

pub record Workqueue : Type 0 where
  pub core_id : ℕ
  pub queue : Ptr

-- Registers of the core that runs: `x` is read at 19 to 30.
pub record Cpu : Type 0 where
  pub x : ℕ → ℕ
  pub sp : Ptr
  pub spsr_el1 : ℕ
  pub elr_el1 : ℕ

-- What the scheduler's code reads and writes: the objects by address, the array `global_wqs`,
-- `pid_cntr`, 64-bit words of other memory such as the stacks, and registers.
pub record Kernel : Type 0 where
  pub task : Ptr → Task
  pub ctxt : Ptr → Ctxt
  pub wq : Ptr → Workqueue
  pub word : Ptr → ℕ
  pub global_wqs : ℕ → Ptr
  pub pid_cntr : ℕ
  pub cpu : Cpu

-- `*t`
unfoldable pub load : Ptr → Cmd Kernel Task
load t s = if t == null then fault else ok (s.task t) s

unfoldable pub store : Ptr → Task → Cmd Kernel (Unit {0})
store t v s = if t == null then fault else ok tt (record s { task = update s.task t v })

-- `t->next = q`
unfoldable pub set_next : Ptr → Ptr → Cmd Kernel (Unit {0})
unfolding load store
set_next t q = do v ← load t; store t (record v { next = q })

unfoldable pub load_ctxt : Ptr → Cmd Kernel Ctxt
load_ctxt c s = if c == null then fault else ok (s.ctxt c) s

unfoldable pub store_ctxt : Ptr → Ctxt → Cmd Kernel (Unit {0})
store_ctxt c v s = if c == null then fault else ok tt (record s { ctxt = update s.ctxt c v })

-- The word `i` of an array of 64-bit words at `x`.
unfoldable pub store_word : Ptr → ℕ → ℕ → Cmd Kernel (Unit {0})
store_word x i v s = ok tt (record s { word = update s.word (x + 8 * i) v })

-- `wq->queue`
unfoldable pub load_queue : Ptr → Cmd Kernel Ptr
load_queue w s = if w == null then fault else ok (s.wq w).queue s

-- `wq->queue = q`
unfoldable pub set_queue : Ptr → Ptr → Cmd Kernel (Unit {0})
set_queue w q s =
    if w == null
    then fault
    else ok tt (record s { wq = update s.wq w (record (s.wq w) { queue = q }) })
