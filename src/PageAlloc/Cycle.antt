-- ===== src/PageAlloc/Cycle.antt =====
-- `page_alloc` and `page_free` from the state that `init_free_list` leaves.
use hob_os.Base.{ℕ, ◌+◌, ◌*◌, ◌≤◌, ◌≡◌}
use hob_os.Base.Run.{◌>>=◌, ◌>>◌}
use hob_os.PageAlloc.Block.{Ptr, FreeListHeader}
use hob_os.PageAlloc.Rep.{Rep}
use hob_os.PageAlloc.Safety.{IsOrderOf}
use hob_os.PageAlloc.Stair.{page_at, Stair, Pieces}

-- The block of order `o` at `page` was handed out.
record Handed (k A nr_pages : ℕ) (page last : ℕ) (t : FreeListHeader) : Type 0 where
  order : ℕ
  firsts : ℕ → Ptr
  newest : Ptr
  least : IsOrderOf nr_pages order
  below : order ≤ k
  address : page ≡ page_at k A order
  pieces : Pieces k A firsts order newest t
  room : t.last_entry ≤ last + 2 * k
