-- ===== src/PageAlloc/Tests.antt =====
-- Runs of the allocator, and the theorems at small states.
use hob_os.Base.{
  ℕ, ◌*◌, ◌+◌, ◌≡◌, refl, List, [], ◌∷◌, ◌==◌, if◌then◌else◌, arith, Bool-cases, inl, inr, ◌≤◌, ◌≢◌,
  IsFresh,
}
use hob_os.Base.Run.{Run, Cmd, ok, fault, out_of_fuel, pure, ◌>>=◌, ◌>>◌, Ends}
use hob_os.PageAlloc.Block.{
  Ptr, null, FreeListHeader, block_used, list_has_free_block, page_block_exists, has_free_loop,
  get_block_free_list, put_free_list, load, store, set_next, get_next_free_block, next_free_loop,
  get_nth_block, nth_loop, remove_next_free_block, remove_free_loop, new_page_block,
  add_block_to_order, last_loop, get_buddy_pfn, block_is_used, block_phy_offset, get_list_size,
  remove_page_block, remove_loop, max_page_order,
}
use hob_os.PageAlloc.Alloc.{
  get_page_order, order_loop, get_block, closest_loop, reduce_to_order, reduce_loop,
  split_page_block, mark_block_used, page_alloc, init_free_list, init_loop, create_free_list,
  create_loop, page_free, find_block_by_pfn, find_block_loop, find_pfn_in_order, find_pfn_loop,
  mark_block_free, merge_buddy, get_block_buddy,
}
use hob_os.PageAlloc.Rep.{Rep}
use hob_os.PageAlloc.Stuck.{page_alloc-stuck}
use hob_os.PageAlloc.Unlink.{with_list}
use hob_os.PageAlloc.Release.{FreeResult, page_free-safe}
use hob_os.PageAlloc.Lost.{page_free-lost}
use hob_os.PageAlloc.Loop.{create_free_list-endless}
use hob_os.PageAlloc.Safety.{page_alloc-safe, AllocResult}

abbrev zeroed : FreeListHeader
zeroed = record {
  list = λ _. record { first = null; count = 0 };
  last_entry = null;
  block = λ _. record { page = 0; order = 0; flags = 0; next = null };
}

-- Two blocks of order 1, the second in use.
abbrev two : FreeListHeader
two = record {
  list =
      λ k. if k == 1 then record { first = 1; count = 2 } else record { first = null; count = 0 };
  last_entry = 2;
  block = λ a.
      if a == 1
      then record { page = 0x2000; order = 1; flags = 0; next = 2 }
      else record { page = 0; order = 1; flags = block_used; next = null };
}

abbrev two_lists : ℕ → List Ptr
two_lists k = if k == 1 then 1 ∷ 2 ∷ [] else []

two-Rep : Rep (max_page_order + 1) two two_lists
two-Rep = record {
  orders = omega arith;
  started = omega arith;
  chain = λ k h. elim (Bool-cases (k == 1)) [ inl e ↦ rw e (ground arith) | inr e ↦ rw e ];
  counted = λ k h. elim (Bool-cases (k == 1)) [ inl e ↦ rw e | inr e ↦ rw e ];
  members = λ k h. elim (Bool-cases (k == 1)) [ inl e ↦ rw e (ground arith) | inr e ↦ rw e tt ];
  distinct = λ k h. elim (Bool-cases (k == 1)) [ inl e ↦ rw e (omega arith) | inr e ↦ rw e tt ];
  short =
      λ k h. elim (Bool-cases (k == 1)) [ inl e ↦ rw e (omega arith) | inr e ↦ rw e (omega arith) ];
}

page_alloc-safe_example : Ends (AllocResult 2 two) (page_alloc 64 2 two)
page_alloc-safe_example = page_alloc-safe 64 two-Rep (omega arith) (omega arith) 2

-- The free block of order 1 cannot be had for a request of one page.
page_alloc-stuck_example : page_alloc 64 1 two ≡ ok 0 two
unfolding block_is_used hob_os.PageAlloc.Lookup.any_free
page_alloc-stuck_example =
    page_alloc-stuck two-Rep 0 1 1 2 [] refl refl refl (omega arith) (omega arith)
      (λ j _ l. let z : j ≡ 0 = omega arith in rw z) 64 1 (omega arith) (omega arith) (omega arith)

page_free-safe_example : Ends (λ _ t. FreeResult 0x2000 two_lists two t) (page_free 64 0x2000 two)
page_free-safe_example = page_free-safe 64 0x2000 two-Rep refl (omega arith) (omega arith)

-- Three blocks of one page: the buddy of the second is the first.
abbrev three : FreeListHeader
three = record {
  list =
      λ k. if k == 0 then record { first = 1; count = 3 } else record { first = null; count = 0 };
  last_entry = 3;
  block = λ a.
      if a == 1
      then record { page = 0x2000; order = 0; flags = 0; next = 2 }
      else (if a == 2
          then record { page = 0x3000; order = 0; flags = block_used; next = 3 }
          else record { page = 0x5000; order = 0; flags = 0; next = null });
}

abbrev three_lists : ℕ → List Ptr
three_lists k = if k == 0 then 1 ∷ 2 ∷ 3 ∷ [] else []

three-Rep : Rep (max_page_order + 1) three three_lists
three-Rep = record {
  orders = omega arith;
  started = omega arith;
  chain = λ k h. elim (Bool-cases (k == 0)) [ inl e ↦ rw e (ground arith) | inr e ↦ rw e ];
  counted = λ k h. elim (Bool-cases (k == 0)) [ inl e ↦ rw e | inr e ↦ rw e ];
  members = λ k h. elim (Bool-cases (k == 0)) [ inl e ↦ rw e (ground arith) | inr e ↦ rw e tt ];
  distinct = λ k h. elim (Bool-cases (k == 0)) [ inl e ↦ rw e (ground arith) | inr e ↦ rw e tt ];
  short =
      λ k h. elim (Bool-cases (k == 0)) [ inl e ↦ rw e (omega arith) | inr e ↦ rw e (omega arith) ];
}

page_free-lost_example :
    Ends
      (λ _ t.
        Rep (max_page_order + 1) t (with_list three_lists 0 (1 ∷ 3 ∷ []))
        × (t.last_entry ≡ 3)
        × ((t.block 2).flags ≡ 0)
        × ((i : ℕ) → i ≤ max_page_order → IsFresh 2 (with_list three_lists 0 (1 ∷ 3 ∷ []) i)))
      (page_free 64 0x3000 three)
unfolding get_buddy_pfn block_is_used
page_free-lost_example =
    page_free-lost 64 0x3000 three-Rep 0 (omega arith) 1 2 3 [] refl refl
      (λ i h. absurd (omega arith)) (omega arith) refl refl (omega arith) (omega arith)

create_free_list-endless_example :
    Ends
      (λ _ t. (j pb : ℕ) → pb ≢ null → add_block_to_order j pb 3 t ≡ out_of_fuel)
      (create_free_list 64 0x800000 3 2 zeroed)
create_free_list-endless_example =
    create_free_list-endless 64 3 (omega arith) 0 0x800000 zeroed refl (omega arith)

abbrev value : {A : Type 0} → Run FreeListHeader A → Run (Unit {0}) A
value (ok a s) = ok a tt
value fault = fault
value out_of_fuel = out_of_fuel

abbrev from_zeroed : {A : Type 0} → Cmd FreeListHeader A → Run (Unit {0}) A
from_zeroed m = value (m zeroed)

-- With the memory of `main`, 256 pages: after two pages, one more page cannot be had.
abbrev two_then_one : Cmd FreeListHeader (ℕ × ℕ)
two_then_one = do
  init_free_list 99 0x800000 (256 * 4096)
  a ← page_alloc 99 2
  b ← page_alloc 99 1
  pure (a, b)

two_then_one_run : from_zeroed two_then_one ≡ ok (0x8fe000, 0) tt
unfolding get_page_order order_loop get_block closest_loop list_has_free_block page_block_exists
    has_free_loop get_block_free_list put_free_list load store set_next reduce_to_order reduce_loop
    split_page_block get_next_free_block next_free_loop get_nth_block nth_loop
    remove_next_free_block remove_free_loop new_page_block add_block_to_order last_loop
    get_buddy_pfn block_is_used mark_block_used page_alloc init_free_list init_loop create_free_list
    create_loop block_phy_offset get_list_size
two_then_one_run = refl

-- One page is taken and given back, and all 256 pages are free again.
abbrev all_back : Cmd FreeListHeader (ℕ × ℕ)
all_back = do
  init_free_list 99 0x800000 (256 * 4096)
  a ← page_alloc 99 1
  page_free 99 a
  b ← page_alloc 99 256
  pure (a, b)

all_back_run : from_zeroed all_back ≡ ok (0x8ff000, 0x800000) tt
unfolding get_page_order order_loop get_block closest_loop list_has_free_block page_block_exists
    has_free_loop get_block_free_list put_free_list load store set_next reduce_to_order reduce_loop
    split_page_block get_next_free_block next_free_loop get_nth_block nth_loop
    remove_next_free_block remove_free_loop new_page_block add_block_to_order last_loop
    get_buddy_pfn block_is_used mark_block_used page_alloc init_free_list init_loop create_free_list
    create_loop block_phy_offset get_list_size page_free find_block_by_pfn find_block_loop
    find_pfn_in_order find_pfn_loop mark_block_free merge_buddy get_block_buddy remove_page_block
    remove_loop
all_back_run = refl
