-- ===== src/Smp/Handoff.antt =====
-- How a core hands work to a worker core: `__setup_core` and then calls of `__run_core` on one side,
-- `__park_and_wait` on the other, as steps of two parties that interleave. The mutexes
-- (include/hobos/asm/mutex.h) are Booleans; a step that waits for one leaves the state. What is
-- stored in the spin table is `jump_to_EL1` or `worker_process`; both end in `__park_and_wait`, so
-- that a call of `trigger` begins with what the function does, and goes on with the two releases.
use hob_os.Base.{
  ℕ, zero, suc, ◌≡◌, ◌⊎◌, List, [], ◌∷◌, ◌++◌, Bool, true, false, ltb, ◌==◌, if◌then◌else◌,
}
use hob_os.Smp.{max_remote_core_id}
use hob_os.PageTable.{va_to_pa}
use hob_os.Task.{Ptr, null}

-- Before `__setup_core` and in it, with the first mutex taken and with the address stored; between
-- calls of `__run_core`, and in one, with the first mutex taken and with the address stored
pub data Caller : Type 0 where
  starting : Caller
  setup_locked : Caller
  setup_stored : Caller
  idle : Caller
  locked : Caller
  stored : Caller

-- In the table of the firmware, which a core leaves for the address it finds; in a function, after
-- the release of the second mutex, and in the wait for it
pub data Remote : Type 0 where
  asleep : Remote
  executing : Remote
  releasing : Remote
  waiting : Remote

-- `asked` counts the calls of `__run_core` that have returned 0, `started` has the addresses that
-- `__park_and_wait` has called, the last one first.
pub record Handoff : Type 0 where
  pub mutex0 : Bool
  pub mutex1 : Bool
  pub exec_addr : Ptr
  pub caller : Caller
  pub remote : Remote
  pub asked : ℕ
  pub started : List Ptr

-- The calling core or the worker core makes a step.
pub data Event : Type 0 where
  call : Event
  park_and_wait : Event

-- `__init_worker` has cleared the mutexes.
abbrev pub before_setup : Handoff
before_setup = record {
  mutex0 = false;
  mutex1 = false;
  exec_addr = null;
  caller = starting;
  remote = asleep;
  asked = 0;
  started = [];
}

abbrev pub Has : Event → List Event → Type 0
Has e [] = ⊥
Has e (x ∷ es) = (x ≡ e) ⊎ Has e es

-- Steps in `n` stretches, in each of which both parties make at least one step, in any order
pub data Fair : ℕ → List Event → Type 0 where
  none : Fair 0 []
  stretch :
      {n : ℕ} {fs : List Event} (es : List Event)
      → Has call es
      → Has park_and_wait es
      → Fair n fs
      → Fair (suc n) (es ++ fs)

module _ (core jump_to_el1 worker_process : ℕ) where
  -- For a core number above 3 this function and the next return -1.
  abbrev setup_core : Caller → Handoff → Handoff
  setup_core starting s =
      if ltb max_remote_core_id core
      then s
      else (if s.mutex0 then s else record s { mutex0 = true; caller = setup_locked })
  setup_core setup_locked s = record s { exec_addr = va_to_pa jump_to_el1; caller = setup_stored }
  setup_core setup_stored s = if s.mutex1 then s else record s { mutex1 = true; caller = idle }
  setup_core _ s = s

  -- `__run_core`, behind `__setup_core`
  abbrev caller_step : Caller → Handoff → Handoff
  caller_step idle s =
      if ltb max_remote_core_id core
      then s
      else (if s.mutex0 then s else record s { mutex0 = true; caller = locked })
  caller_step locked s = record s { exec_addr = worker_process; caller = stored }
  caller_step stored s =
      if s.mutex1 then s else record s { mutex1 = true; caller = idle; asked = suc s.asked }
  caller_step c s = setup_core c s

  abbrev remote_step : Remote → Handoff → Handoff
  remote_step asleep s = if s.exec_addr == null then s else record s { remote = executing }
  remote_step executing s = record s { mutex1 = false; remote = releasing }
  remote_step releasing s = record s { mutex0 = false; remote = waiting }
  remote_step waiting s =
      if s.mutex1 then record s { remote = executing; started = s.exec_addr ∷ s.started } else s

  unfoldable pub step : Event → Handoff → Handoff
  step call s = caller_step s.caller s
  step park_and_wait s = remote_step s.remote s

  -- The states after a sequence of steps
  unfoldable pub run : List Event → Handoff → Handoff
  run [] s = s
  run (e ∷ es) s = run es (step e s)

  -- `__setup_core`, where the core starts after it has returned
  abbrev pub set_up : Handoff
  set_up = step call (step call (step call before_setup))

  -- `n` times the address that `__run_core` stores
  abbrev pub calls : ℕ → List Ptr
  calls zero = []
  calls (suc n) = worker_process ∷ calls n
