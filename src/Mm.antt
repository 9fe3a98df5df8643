-- ===== src/Mm.antt =====
-- mm.c: `kmalloc` and `kfree`.
-- `core`, `idle_task` and `fuel` are as in Slub/Cache.antt.
pub mod Bytes
pub mod Io
mod Tests
use hob_os.Base.{ℕ, ◌+◌, ◌/◌, ◌%◌, ◌==◌, if◌then◌else◌}
use hob_os.Base.Int.{pos, negsuc}
use hob_os.Base.Run.{Cmd, pure, ◌>>=◌}
use hob_os.PageAlloc.Block.{page_size}
use hob_os.PageAlloc.Alloc.{page_alloc, page_free}
use hob_os.Task.{Ptr}
use hob_os.Slub.{Slab, on_pages}
use hob_os.Slub.Cache.{slub_alloc, slub_free}

module _ (core fuel : ℕ) (idle_task : Ptr) where
  -- `size` is an `unsigned int`.
  unfoldable pub kmalloc : ℕ → Cmd Slab Ptr
  kmalloc size =
      if size / page_size == 0
      then slub_alloc core fuel idle_task size
      else on_pages (page_alloc fuel (size / page_size + (if size % page_size == 0 then 0 else 1)))

  unfoldable pub kfree : Ptr → Cmd Slab (Unit {0})
  kfree p = do
    r ← slub_free core fuel idle_task p
    elim r [ pos _ ↦ pure tt | negsuc _ ↦ on_pages (page_free fuel p) ]
