-- ===== src/Paging.antt =====
-- Demand paging: include/paging.h and system/paging.c. `Entry` has the bit-fields of page table
-- and directory entries, `Fill` the loops that write them, `Frames` the frame tables and their
-- counters, `Alloc` the allocation of a frame with its eviction.
pub mod Entry
pub mod Fill
pub mod Bytes
pub mod Frames
pub mod Alloc
