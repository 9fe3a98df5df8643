-- ===== src/Slub/Tests.antt =====
-- The theorems at a state of core 0 with one object of 64 bytes left, and at one with two.
use hob_os.Base.{if◌then◌else◌, ◌==◌, [], ◌∷◌, ◌+◌, ◌≡◌, refl, arith, true, false}
use hob_os.Base.Run.{Ends, fault, pure, ◌>>=◌}
use hob_os.Task.{Ptr, null}
use hob_os.Slub.{Slab}
use hob_os.Slub.Free.{kmem_extract_obj-second}
use hob_os.Slub.Cache.{kmem_extract_obj, slub_alloc}
use hob_os.Slub.Order.{kmalloc-between}
use hob_os.Slub.Take.{Stocked, slub_alloc-Taken, nexts}
use hob_os.Base.Chain.{Linked}
use hob_os.Slub.Ready.{used}
use hob_os.Slub.Single.{Single, slub_alloc-twice}
use hob_os.Mm.{kmalloc}

abbrev one_left : Slab
one_left = record {
  obj =
      λ a. record { addr = 0x8000; order = 6; parent_core_id = 0; parent_cache = 100; next = null };
  cache = λ a. record {
    order = 6;
    parent_fl = 0;
    parent_page = 0x8000;
    first = 200;
    status = true;
    next = null;
  };
  fls = λ _. record { cache = λ i. 100; end = 300; core_id = 0 };
  pages = record {
    list = λ _. record { first = 0; count = 0 };
    last_entry = 1;
    block = λ _. record { page = 0; order = 0; flags = 0; next = 0 };
  };
  kernel = record {
    task = λ a. record {
      pid = 3;
      base_pt = null;
      ctxt = 20;
      pc = null;
      arg = null;
      running = true;
      next = null;
      completed = false;
      resume = false;
    };
    ctxt = λ _. record { sp = null; spsr = 0; x = null; pad = 0; elr = 0; used_kmem = null };
    wq = λ _. record { core_id = 0; queue = 10 };
    word = λ _. 0;
    global_wqs = λ _. 5;
    pid_cntr = 4;
    cpu = record { x = λ _. 0; sp = null; spsr_el1 = 0; elr_el1 = 0 };
  };
}

one_left-Single : Single 0 40 one_left 100 200 10 20
one_left-Single = record {
  here = record {
    core_ok = omega arith;
    made = omega arith;
    cache_at = λ o h. refl;
    c_ne = omega arith;
    pid = omega arith;
    wq_ne = omega arith;
    current = refl;
    t_ne = omega arith;
    ctxt = refl;
    cx_ne = omega arith;
  };
  first = refl;
  x_ne = omega arith;
  alone = refl;
}

slub_alloc-twice_example :
    Ends
      (λ (r : Ptr × Ptr) s'. (r.0 ≡ 0x8000) × (r.1 ≡ 0x8000) × ((s'.obj 200).next ≡ 200))
      ((do a ← slub_alloc 0 5 9 40; b ← slub_alloc 0 5 9 40; pure (a, b)) one_left)
slub_alloc-twice_example =
    slub_alloc-twice 0 4 9 40 100 200 10 20 (omega arith) one_left-Single refl

kmalloc-between_example : kmalloc 0 5 9 2000 one_left ≡ fault
kmalloc-between_example =
    kmalloc-between 0 5 9 2000 one_left (omega arith) (omega arith) (omega arith) (omega arith)

-- Two objects are left, and the task uses a third one.
abbrev two_left : Slab
two_left = record one_left {
  obj = λ a. record {
    addr = 0x8000 + a;
    order = 6;
    parent_core_id = 0;
    parent_cache = 100;
    next = if a == 200 then 201 else null;
  };
  kernel = record one_left.kernel {
    ctxt = λ _. record { sp = null; spsr = 0; x = null; pad = 0; elr = 0; used_kmem = 203 };
  };
}

two_left-Stocked : Stocked 0 40 two_left 100 10 20 200 [] 201 (203 ∷ [])
two_left-Stocked = record {
  here = record {
    core_ok = omega arith;
    made = omega arith;
    cache_at = λ o h. refl;
    c_ne = omega arith;
    pid = omega arith;
    wq_ne = omega arith;
    current = refl;
    t_ne = omega arith;
    ctxt = refl;
    cx_ne = omega arith;
  };
  stock = (refl, omega arith, (refl, omega arith, refl));
  using = (refl, omega arith, refl);
  last_first = omega arith;
  distinct = omega arith;
  distinct_us = omega arith;
  apart = omega arith;
  last_apart = omega arith;
}

slub_alloc-Taken_example :
    Ends
      (λ r s'.
        (r ≡ 0x8000 + 201)
        × Linked (nexts s') (s'.cache 100).first (200 ∷ [])
        × Linked (nexts s') (used s' 20) (203 ∷ 201 ∷ []))
      (slub_alloc 0 5 9 40 two_left)
slub_alloc-Taken_example =
    slub_alloc-Taken 0 5 40 9 100 10 20 200 [] 201 (omega arith) (203 ∷ []) two_left-Stocked
      (omega arith) (omega arith)

-- The task uses both objects.
abbrev two_used : Slab
two_used = record two_left {
  kernel = record one_left.kernel {
    ctxt = λ _. record { sp = null; spsr = 0; x = null; pad = 0; elr = 0; used_kmem = 200 };
  };
}

kmem_extract_obj-second_example :
    Ends
      (λ r s'. (r ≡ 201) × Linked (nexts s') (used s' 20) (200 ∷ []))
      (kmem_extract_obj 0 5 10 (0x8000 + 200) two_used)
kmem_extract_obj-second_example =
    kmem_extract_obj-second 0 5 two_used 10 20 200 201 [] (omega arith) refl (omega arith)
      (refl, omega arith, (refl, omega arith, refl)) (omega arith) (omega arith)
