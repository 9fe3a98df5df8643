-- ===== src/PageAlloc.antt =====
-- page_alloc.c and include/hobos/page_alloc.h: the buddy allocator.
pub mod Block
pub mod Alloc
pub mod Append
pub mod Unlink
pub mod Taken
pub mod Find
pub mod Merge
pub mod Release
pub mod Second
pub mod Lost
pub mod Init
pub mod Loop
pub mod Stair
pub mod Buddy
pub mod Rejoin
pub mod Newest
pub mod Descend
pub mod Cycle
pub mod Lookup
pub mod Remove
pub mod Split
pub mod Safety
pub mod Stuck
pub mod Rep
mod Tests
