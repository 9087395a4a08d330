-- ===== src/MemoryManager.antt =====
-- core/mmanager.cpp with core/paging.h: pages from the page allocator, mapped at their own address
-- by a page directory and its page tables.
pub mod Defs
pub mod Entries
pub mod Mapping
pub mod Unmapping
mod Tests
