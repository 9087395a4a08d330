-- ===== src/Heap/Init.antt =====
-- init of core/free_llist_allocator.cpp.
use juice_os_kernel.Prelude.{ℕ, ◌+◌, ◌^◌, ◌≤◌, ◌≡◌, refl, ◌∙◌, inr, true, [], ◌∷◌, arith, leb}
use juice_os_kernel.Heap.Memory.{
  Memory, write_word, read_word-write_word, read_word-write_word_other,
}
use juice_os_kernel.Heap.Defs.{
  FllAllocator, ok, entry_prev, entry_next, entry_size, set_prev, set_next, set_size, init,
}
use juice_os_kernel.Heap.Links.{IsFreeList}

-- The allocator that init leaves.
abbrev pub initial : (location heap_size : ℕ) → Memory → FllAllocator
initial location heap_size m = record {
  memory =
      write_word location 0 (write_word (location + 4) 0 (write_word (location + 8) heap_size m));
  first = location;
  heap_size = heap_size;
}

pub init-initial :
    (location heap_size : ℕ) (h : FllAllocator)
    → 12 ≤ heap_size
    → init location heap_size h ≡ ok (initial location heap_size h.memory)
unfolding init set_prev set_next set_size
init-initial location heap_size h w =
    let fits : leb 12 heap_size ≡ true = ground arith in rw (fits) refl

-- Memory that init is given, below 2 GB and behind the words at null, is a free list of one block.
pub initial-IsFreeList :
    (location heap_size : ℕ) (m : Memory)
    → 12 ≤ location
    → 12 ≤ heap_size
    → location + heap_size ≤ 2 ^ 31
    → IsFreeList (initial location heap_size m).memory location ((location, heap_size) ∷ [])
unfolding entry_prev entry_next entry_size
initial-IsFreeList location heap_size m l w k =
    let m1 = write_word (location + 8) heap_size m in
    let m2 = write_word (location + 4) 0 m1 in
    record {
      inside = (l, w, k);
      chain = (
        refl,
        read_word-write_word location 0 m2 (omega arith),
        read_word-write_word_other location 0 m2 (location + 8) (inr (omega arith))
            ∙ read_word-write_word_other (location + 4) 0 m1 (location + 8) (inr (omega arith))
            ∙ read_word-write_word (location + 8) heap_size m (omega arith),
        read_word-write_word_other location 0 m2 (location + 4) (inr (omega arith))
            ∙ read_word-write_word (location + 4) 0 m1 (omega arith),
      );
    }
