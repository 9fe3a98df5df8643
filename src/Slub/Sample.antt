-- ===== src/Slub/Sample.antt =====
-- A heap for the tests: two free pages, two free objects of 64 bytes, and a task that uses none.
use hob_os.Base.{◌==◌, ◌+◌, if◌then◌else◌, true, false}
use hob_os.Task.{null}
use hob_os.Slub.{Slab}

abbrev pub sample : Slab
sample = record {
  obj = λ a. record {
    addr = 0x8000 + a;
    order = 6;
    parent_core_id = 0;
    parent_cache = 100;
    next = if a == 200 then 201 else null;
  };
  cache = λ a. record {
    order = 6;
    parent_fl = 0;
    parent_page = 0x8000;
    first = 200;
    status = true;
    next = null;
  };
  fls = λ _. record { cache = λ i. 100; end = 300; core_id = 0 };
  pages = record {
    list = λ k. if k == 0 then record { first = 1; count = 2 } else record { first = 0; count = 0 };
    last_entry = 2;
    block = λ a.
        if a == 1
        then record { page = 0x3000; order = 0; flags = 0; next = 2 }
        else record { page = 0x4000; order = 0; flags = 0; next = 0 };
  };
  kernel = record {
    task = λ a. record {
      pid = 0;
      base_pt = null;
      ctxt = 7;
      pc = null;
      arg = null;
      running = true;
      next = null;
      completed = false;
      resume = false;
    };
    ctxt = λ _. record { sp = null; spsr = 0; x = null; pad = 0; elr = 0; used_kmem = null };
    wq = λ _. record { core_id = 0; queue = null };
    word = λ _. 0;
    global_wqs = λ _. null;
    pid_cntr = 1;
    cpu = record { x = λ _. 0; sp = null; spsr_el1 = 0; elr_el1 = 0 };
  };
}
