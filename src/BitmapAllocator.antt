-- ===== src/BitmapAllocator.antt =====
-- core/bitmap_allocator.cpp: the page allocator of the kernel, a bitmap with one bit for a page.
-- The `m_bitmapDataLength` bytes at `m_bitmapData` are the list `bitmap`; `size_t` is 32 bits wide.
pub mod Defs
pub mod Fill
pub mod Marking
pub mod ByteTables
pub mod Runs
pub mod Scanning
pub mod FirstFree
pub mod FirstFit
pub mod Ranges
pub mod Validity
pub mod Alloc
pub mod Granting
pub mod Freeing
pub mod Init
mod Tests
