-- ===== src/Heap/Tests.antt =====
-- A small heap.
use juice_os_kernel.Prelude.{ℕ, ◌+◌, ◌≤◌, max, ◌≡◌, refl, ap, ◌≢◌, inr, [], ◌∷◌, arith, length}
use juice_os_kernel.Heap.Memory.{Memory, read_word, write_word}
use juice_os_kernel.Heap.Defs.{
  FllAllocator, ok, endless, entry_next, entry_size, write_header, alloc, free, get_unused,
}
use juice_os_kernel.Heap.Chains.{Blocks}
use juice_os_kernel.Heap.Links.{IsFreeList}
use juice_os_kernel.Heap.Moves.{Elsewhere}
use juice_os_kernel.Heap.FirstFit.{taken, without, write_header-IsUsed}
use juice_os_kernel.Heap.Allocating.{Allocated, alloc-Allocated}
use juice_os_kernel.Heap.Growing.{released, Freed}
use juice_os_kernel.Heap.Freeing.{free-released, free-null_first, alloc-endless}
use juice_os_kernel.Heap.Returning.{free-alloc_list, get_unused-total}
use juice_os_kernel.Heap.Init.{initial, initial-IsFreeList}

abbrev zeros : Memory
zeros address = 0

-- A heap of one kilobyte.
abbrev small_heap : FllAllocator
small_heap = initial 0x1000 0x400 zeros

abbrev all_free : Blocks
all_free = (0x1000, 0x400) ∷ []

all_free_lem : IsFreeList small_heap.memory small_heap.first all_free
all_free_lem = initial-IsFreeList 0x1000 0x400 zeros (omega arith) (omega arith) (omega arith)

some_blocks : (x : ℕ × ℕ) (bs : Blocks) → x ∷ bs ≢ []
some_blocks x bs e = let no : 1 ≤ 0 = omega (arith, ap length e) in elim no [ ]

-- 24 bytes and a header.
alloc-Allocated_example :
    (h' : FllAllocator) × (alloc 1 24 small_heap ≡ ok (0x1000 + 8, h'))
    × Allocated small_heap all_free 0x1000
        (taken (max (24 + 8) 12) 0x400)
        (without (max (24 + 8) 12) all_free)
        h'
alloc-Allocated_example =
    alloc-Allocated small_heap all_free 24 1 0x1000 0x400 all_free_lem (omega arith) (omega arith)
      (omega arith) refl

free-alloc_list_example :
    (h' : FllAllocator) × (h'' : FllAllocator) × (alloc 1 24 small_heap ≡ ok (0x1000 + 8, h'))
    × (free 1 (0x1000 + 8) h' ≡ ok h'')
    × IsFreeList h''.memory h''.first all_free
    × ((k : ℕ) → Elsewhere k all_free → h''.memory k ≡ small_heap.memory k)
free-alloc_list_example =
    free-alloc_list small_heap all_free 24 1 0x1000 0x400 all_free_lem (omega arith, tt)
      (omega arith) (omega arith) (omega arith) refl (some_blocks (0x1020, 0x3E0) [])

abbrev one_used : FllAllocator
one_used =
    (alloc-Allocated small_heap all_free 24 1 0x1000 0x400 all_free_lem (omega arith) (omega arith)
      (omega arith) refl).0

one_used_lem :
    Allocated small_heap all_free 0x1000
      (taken (max (24 + 8) 12) 0x400)
      (without (max (24 + 8) 12) all_free)
      one_used
one_used_lem =
    (alloc-Allocated small_heap all_free 24 1 0x1000 0x400 all_free_lem (omega arith) (omega arith)
      (omega arith) refl).2

abbrev rest_free : Blocks
rest_free = (0x1020, 0x3E0) ∷ []

free-released_example :
    (h' : FllAllocator) × (free 1 (0x1000 + 8) one_used ≡ ok h')
    × Freed one_used rest_free 0x1000 0x20 (released 0x1000 0x20 rest_free) h'
free-released_example =
    free-released one_used rest_free 1 0x1000 0x20 one_used_lem.is_free_list
      (some_blocks (0x1020, 0x3E0) []) one_used_lem.is_used (inr (omega arith), tt) (omega arith)
      (omega arith) (omega arith) (omega arith)

-- A heap whose only block is in use.
abbrev full_heap : FllAllocator
full_heap = record { memory = write_header 0x1000 0x400 zeros; first = 0; heap_size = 0x400 }

free-null_first_example :
    (h' : FllAllocator) × (free 1 (0x1000 + 8) full_heap ≡ ok h')
    × (h'.first ≡ 0x1000)
    × (entry_size h'.memory 0x1000 ≡ 0x400)
    × (entry_next h'.memory 0x1000 ≡ 0x400)
free-null_first_example =
    free-null_first full_heap 1 0x1000 0x400 refl
      (write_header-IsUsed zeros 0x1000 0x400 (omega arith)) (omega arith) (omega arith)
      (omega arith)

-- More bytes than the heap has.
nothing_at_null : entry_size small_heap.memory 0 ≡ 0
unfolding entry_size read_word write_word
nothing_at_null = refl

null_at_null : entry_next small_heap.memory 0 ≡ 0
unfolding entry_next read_word write_word
null_at_null = refl

alloc-endless_example : alloc 1000 0x500 small_heap ≡ endless
alloc-endless_example =
    alloc-endless small_heap all_free 0x500 1000 all_free_lem (omega arith) (omega arith) refl
      (omega (arith, nothing_at_null)) null_at_null

unused_all : get_unused 1 small_heap ≡ ok 0x400
unused_all =
    get_unused-total small_heap all_free 1 all_free_lem (some_blocks (0x1000, 0x400) [])
      (omega arith)
