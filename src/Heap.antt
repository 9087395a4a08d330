-- ===== src/Heap.antt =====
-- core/free_llist_allocator.cpp and core/heap.cpp: the kernel's heap.
pub mod Memory
pub mod Defs
pub mod Chains
pub mod Links
pub mod Entries
pub mod Moves
pub mod Removals
pub mod FirstFit
pub mod Allocating
pub mod Swaps
pub mod Inserting
pub mod Insertions
pub mod Growing
pub mod Joining
pub mod Extending
pub mod Rounds
pub mod Releasing
pub mod Freeing
pub mod Fitting
pub mod Returning
pub mod Init
mod Tests
