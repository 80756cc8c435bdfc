-- ===== src/Pmap.antt =====
-- sched/kern/pmap.c: the page allocator, the two-level page tables and the checks of user memory.
-- An operation is a function on the physical memory whose result is `none` where the code panics:
-- KADDR and pa2page of an address beyond physical memory, page_free of a page in use.
pub mod Alloc
pub mod Table
pub mod UserMem
pub mod Boot
mod Tests
