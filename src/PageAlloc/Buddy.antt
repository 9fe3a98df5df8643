-- ===== src/PageAlloc/Buddy.antt =====
-- `find_pfn_in_order` and `get_block_buddy` where the buddy is the first block that matches, or
-- is not there.
use Prim.Native.Nat.{bit_xor}
use hob_os.Base.{
  ℕ, zero, suc, ◌*◌, ◌^◌, ◌<◌, ◌≡◌, ◌≢◌, subst, List, ◌∷◌, true, false, ne→==, eq→==, arith,
}
use hob_os.Base.Run.{ok}
use hob_os.Base.Chain.{Linked}
use hob_os.PageAlloc.Block.{Ptr, null, FreeListHeader, page_size, get_buddy_pfn, block_is_used}
use hob_os.PageAlloc.Alloc.{find_pfn_loop, find_pfn_in_order, get_block_buddy}
use hob_os.PageAlloc.Rep.{nexts, Rep, load-ok, get_list-ok}
use hob_os.PageAlloc.Lookup.{is_free}
use hob_os.PageAlloc.Find.{IsAbsent, find_pfn_loop-absent}

pub not_used :
    (s : FreeListHeader) (a : Ptr) → is_free s a ≡ true → block_is_used (s.block a) ≡ false
not_used s a h = ground (arith, h)

module _ (fuel : ℕ) {b : ℕ} {s : FreeListHeader} {lists : ℕ → List Ptr} (r : Rep b s lists)
    (pfn k : ℕ) (kb : k < b) (f : s.last_entry < fuel) where
  pub find_pfn_in_order-absent :
      IsAbsent s pfn (lists k) → find_pfn_in_order fuel pfn k s ≡ ok null s
  unfolding find_pfn_in_order
  find_pfn_in_order-absent h = rw (get_list-ok s k (omega (arith, r.orders))) (
      find_pfn_loop-absent fuel pfn s (s.list k).first (lists k) (r.chain k kb) h
        (omega (arith, r.short k kb)))

  find_pfn_loop-first :
      (n : ℕ) (p x : Ptr) (xs : List Ptr)
      → 0 < n
      → Linked (nexts s) p (x ∷ xs)
      → (s.block x).page ≡ pfn
      → find_pfn_loop n pfn p s ≡ ok x s
  unfolding find_pfn_loop
  find_pfn_loop-first zero p x xs h l e = absurd (omega arith)
  find_pfn_loop-first (suc n) p x xs h l e =
      rw (l.0, ne→== x null l.1, load-ok s x l.1, eq→== (s.block x).page pfn e)

  find_pfn_in_order-first :
      (x : Ptr) (xs : List Ptr)
      → lists k ≡ x ∷ xs
      → (s.block x).page ≡ pfn
      → find_pfn_in_order fuel pfn k s ≡ ok x s
  unfolding find_pfn_in_order
  find_pfn_in_order-first x xs at e = rw (get_list-ok s k (omega (arith, r.orders))) (
      find_pfn_loop-first fuel (s.list k).first x xs (omega arith)
        (subst (Linked (nexts s) (s.list k).first) at (r.chain k kb)) e)

module _ (fuel : ℕ) {b : ℕ} {s : FreeListHeader} {lists : ℕ → List Ptr} (r : Rep b s lists) (k : ℕ)
    (kb : k < b) (f : s.last_entry < fuel) (pb : Ptr) (ne : pb ≢ null)
    (o : (s.block pb).order ≡ k) where
  pub get_block_buddy-absent :
      IsAbsent s (bit_xor (page_size * 2 ^ k) (s.block pb).page) (lists k)
      → get_block_buddy fuel pb s ≡ ok null s
  unfolding get_block_buddy get_buddy_pfn
  get_block_buddy-absent h =
      rw (load-ok s pb ne, o)
        (find_pfn_in_order-absent fuel r (bit_xor (page_size * 2 ^ k) (s.block pb).page) k kb f h)

  pub get_block_buddy-first :
      (x : Ptr) (xs : List Ptr)
      → lists k ≡ x ∷ xs
      → (s.block x).page ≡ bit_xor (page_size * 2 ^ k) (s.block pb).page
      → get_block_buddy fuel pb s ≡ ok x s
  unfolding get_block_buddy get_buddy_pfn
  get_block_buddy-first x xs at e =
      rw (load-ok s pb ne, o)
        (find_pfn_in_order-first fuel r (bit_xor (page_size * 2 ^ k) (s.block pb).page) k kb f x xs
          at e)
