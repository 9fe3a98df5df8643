-- ===== src/PageTable/Sample.antt =====
-- States for the tests: a table of the first level with two free pages, and three tables.
use hob_os.Base.{◌≡◌, refl, [], ◌==◌, if◌then◌else◌, update, arith, inl}
use hob_os.Base.Run.{ok}
use hob_os.PageAlloc.Block.{
  block_used, list_has_free_block, page_block_exists, has_free_loop, get_block_free_list, load,
  store, get_next_free_block, next_free_loop, get_nth_block, nth_loop, block_is_used,
}
use hob_os.PageAlloc.Alloc.{
  get_page_order, order_loop, get_block, closest_loop, reduce_to_order, reduce_loop,
  mark_block_used, page_alloc,
}
use hob_os.Task.{Ptr, null}
use hob_os.Slub.{Slab}
use hob_os.Mm.{kmalloc}
use hob_os.PageTable.{Paging, extract_addr_from_pte}
use hob_os.PageTable.Fresh.{Fresh}
use hob_os.PageTable.Mapping.{Route}
use hob_os.PageTable.Walk.{zero_desc}
use hob_os.Slub.Sample.{sample}

-- The heap after `mark_block_used(pb)`
abbrev pub taken : Slab → Ptr → Slab
taken h pb = record h {
  pages = record h.pages {
    block = update h.pages.block pb (record (h.pages.block pb) { flags = block_used });
  };
}

abbrev pub heap_1 : Slab
heap_1 = taken sample 2

abbrev pub heap_2 : Slab
heap_2 = taken heap_1 1

pub heap_1_run : kmalloc 0 5 9 0x1000 sample ≡ ok 0x4000 heap_1
unfolding kmalloc list_has_free_block page_block_exists has_free_loop get_block_free_list load store
    get_next_free_block next_free_loop get_nth_block nth_loop block_is_used get_page_order
    order_loop get_block closest_loop reduce_to_order reduce_loop mark_block_used page_alloc
heap_1_run = refl

heap_2_run : kmalloc 0 5 9 0x1000 heap_1 ≡ ok 0x3000 heap_2
unfolding kmalloc list_has_free_block page_block_exists has_free_loop get_block_free_list load store
    get_next_free_block next_free_loop get_nth_block nth_loop block_is_used get_page_order
    order_loop get_block closest_loop reduce_to_order reduce_loop mark_block_used page_alloc
heap_2_run = refl

-- One empty table, and its descriptor at the start of the array
abbrev pub one_table : Paging
one_table = record {
  desc = λ a. if a == 0x5000 then record zero_desc { level = 1; pt = 0x1000 } else zero_desc;
  word = λ a. 0;
  global_page_tables = 0x5000;
  pt_ctr = 1;
  heap = sample;
}

pub one_table-Fresh :
    Fresh 0 5 9 0 one_table 0x5000 0x40201000 0x5020 0x5040 1 4 3 0x4000 0x3000 [] heap_1 heap_2
one_table-Fresh = record {
  level = refl;
  is_base = inl refl;
  page1 = (refl, omega arith, omega arith);
  room = record {
    d_ne = omega arith;
    pt_ne = omega arith;
    in_range = omega arith;
    empty = refl;
    level = omega arith;
    page = (refl, omega arith, omega arith);
    given = heap_1_run;
    tables_ne = omega arith;
    ctr = omega arith;
    place = refl;
    new = omega arith;
    fresh = tt;
    chain = refl;
    distinct = tt;
    others = tt;
    enough = omega arith;
  };
  given = heap_2_run;
  page3 = (refl, omega arith, omega arith);
  no_entry = refl;
  ctr = omega arith;
  place = refl;
  new = omega arith;
  fresh = tt;
  m12 = omega arith;
  m13 = omega arith;
  m23 = omega arith;
}

-- Three tables for the address 0x40201000
abbrev pub three_tables : Paging
three_tables = record one_table {
  desc = λ a.
      if a == 0x5000
      then record { level = 1; pt_len = 0; pt = 0x1000; next = null; child_pt_desc = 0x5020 }
      else (if a == 0x5020
          then record { level = 2; pt_len = 0; pt = 0x4000; next = null; child_pt_desc = 0x5040 }
          else record { level = 3; pt_len = 0; pt = 0x3000; next = null; child_pt_desc = null });
  word = λ a. if a == 0x1008 then 0x4703 else (if a == 0x4008 then 0x3703 else 0);
  pt_ctr = 3;
}

pub three_tables-Route : Route 5 0 three_tables 0x5000 0x40201000 0x5020 0x5040 1 4 3
unfolding extract_addr_from_pte
three_tables-Route = record {
  level = refl;
  first = record {
    d_ne = omega arith;
    pt_ne = omega arith;
    in_range = omega arith;
    points = record { valid = refl; out = refl; extracted = refl; filled = refl };
    kid = record {
      before = [];
      behind = [];
      chain = (refl, omega arith, refl);
      others = tt;
      this = refl;
      enough = omega arith;
    };
    deeper = refl;
  };
  second = record {
    d_ne = omega arith;
    pt_ne = omega arith;
    in_range = omega arith;
    points = record { valid = refl; out = refl; extracted = refl; filled = refl };
    kid = record {
      before = [];
      behind = [];
      chain = (refl, omega arith, refl);
      others = tt;
      this = refl;
      enough = omega arith;
    };
    deeper = refl;
  };
  is_base = inl refl;
  page1 = (refl, omega arith, omega arith);
  page2 = (refl, omega arith, omega arith);
  page3 = (refl, omega arith, omega arith);
  m12 = omega arith;
  m13 = omega arith;
  m23 = omega arith;
}
