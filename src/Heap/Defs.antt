-- ===== src/Heap/Defs.antt =====
-- The allocator of core/free_llist_allocator.cpp. An entry, or the header of a block in use, lies in the block's first bytes.
use juice_os_kernel.Prelude.{
  ℕ, zero, suc, ◌+◌, ◌-◌, ◌%◌, ◌^◌, max, Bool, true, false, not, ◌&&◌, ltb, leb, ◌==◌,
  if◌then◌else◌,
}
use juice_os_kernel.Heap.Memory.{Memory, read_word, write_word}

-- `null` is the address 0, and the memory below the heap can be read and written.
abbrev pub null : ℕ
null = 0

-- The fields of a `llist_free_entry`.
unfoldable pub entry_prev : Memory → ℕ → ℕ
entry_prev m entry = read_word m entry

unfoldable pub entry_next : Memory → ℕ → ℕ
entry_next m entry = read_word m (entry + 4)

unfoldable pub entry_size : Memory → ℕ → ℕ
entry_size m entry = read_word m (entry + 8)

unfoldable pub set_prev : (entry value : ℕ) → Memory → Memory
set_prev entry value m = write_word entry value m

unfoldable pub set_next : (entry value : ℕ) → Memory → Memory
set_next entry value m = write_word (entry + 4) value m

unfoldable pub set_size : (entry value : ℕ) → Memory → Memory
set_size entry value m = write_word (entry + 8) value m

-- sizeof(llist_free_entry) and sizeof(alloc_header), whose fields are the checksum and the size.
abbrev pub free_entry_bytes : ℕ
free_entry_bytes = 12

abbrev pub header_bytes : ℕ
header_bytes = 8

abbrev pub alloc_header_checksum : ℕ
alloc_header_checksum = 0xCAFE1234

pub record FllAllocator : Type 0 where
  pub memory : Memory
  pub first : ℕ
  pub heap_size : ℕ

-- A failed `kernel_assert` is a panic; `endless` is a loop that goes on after its rounds.
pub data Outcome (A : Type 0) : Type 0 where
  ok : A → Outcome A
  panic : Outcome A
  endless : Outcome A

module _ {A B : Type 0} where
  abbrev pub and_then : Outcome A → (A → Outcome B) → Outcome B
  and_then (ok a) k = k a
  and_then panic k = panic
  and_then endless k = endless

  infixl 5 ◌>>=◌
  abbrev pub ◌>>=◌ : Outcome A → (A → Outcome B) → Outcome B
  m >>= k = and_then m k

abbrev pub kernel_assert : {A : Type 0} → Bool → Outcome A → Outcome A
kernel_assert true rest = rest
kernel_assert false rest = panic

unfoldable pub init : (location heap_size : ℕ) → FllAllocator → Outcome FllAllocator
init location heap_size h = kernel_assert (leb free_entry_bytes heap_size) (
    ok (record {
      memory =
          set_prev location null (set_next location null (set_size location heap_size h.memory));
      first = location;
      heap_size = heap_size;
    }))

-- The list operations, in the order of their writes.
unfoldable pub llist_remove : (entry : ℕ) → FllAllocator → FllAllocator
llist_remove entry h =
    let first = if h.first == entry then entry_next h.memory entry else h.first in
    let m1 = set_next (entry_prev h.memory entry) (entry_next h.memory entry) h.memory in
    let m2 = set_prev (entry_next m1 entry) (entry_prev m1 entry) m1 in
    record h { memory = set_size entry 0 m2; first = first }

-- `*newPlace = *block`, with another size.
unfoldable pub copy_entry : (block new_place size : ℕ) → Memory → Memory
copy_entry block new_place size m =
    set_size new_place size
      (set_next new_place (entry_next m block) (set_prev new_place (entry_prev m block) m))

-- The neighbours of an entry that has moved.
unfoldable pub link_neighbours : (new_place : ℕ) → Memory → Memory
link_neighbours new_place m =
    let m1 = set_next (entry_prev m new_place) new_place m in
    set_prev (entry_next m1 new_place) new_place m1

unfoldable pub move_entry : (block new_place size : ℕ) → FllAllocator → FllAllocator
move_entry block new_place size h = record h {
  memory = link_neighbours new_place (copy_entry block new_place size h.memory);
  first = if block == h.first then new_place else h.first;
}

-- The allocator, and the bytes that were taken.
unfoldable pub llist_shrink : (block amount : ℕ) → FllAllocator → Outcome (FllAllocator × ℕ)
llist_shrink block amount h =
    let block_size = entry_size h.memory block in
    let left = block_size - amount in
    kernel_assert (leb amount block_size) (
      if ltb left free_entry_bytes
      then ok (llist_remove block h, block_size)
      else ok (move_entry block ((block + amount) % 2 ^ 32) left h, amount))

unfoldable pub llist_grow_up : (entry amount : ℕ) → FllAllocator → FllAllocator
llist_grow_up entry amount h =
    move_entry entry ((entry + 2 ^ 32 - amount) % 2 ^ 32)
      ((entry_size h.memory entry + amount) % 2 ^ 32) h

unfoldable pub llist_insert_before : (target address size : ℕ) → FllAllocator → Outcome FllAllocator
llist_insert_before target address size h =
    let m0 = set_size address size h.memory in
    let m1 = if h.first == target then m0 else set_next (entry_prev m0 target) address m0 in
    let m2 = set_prev address (entry_prev m1 target) m1 in
    kernel_assert (leb free_entry_bytes size) (
      ok (record h {
        memory = set_prev target address (set_next address target m2);
        first = if h.first == target then address else h.first;
      }))

unfoldable pub llist_insert_after : (target address size : ℕ) → FllAllocator → Outcome FllAllocator
llist_insert_after target address size h =
    let m0 = set_size address size h.memory in
    let m1 =
      if entry_next m0 target == null then m0 else set_prev (entry_next m0 target) address m0 in
    let m2 = set_next address (entry_next m1 target) (set_prev address target m1) in
    kernel_assert (leb free_entry_bytes size)
      (ok (record h { memory = set_next target address m2 }))

-- The first entry from `suitable` on that is large enough. The loop does not test for null.
unfoldable pub find_suitable : (fuel : ℕ) → Memory → (size suitable : ℕ) → Outcome ℕ
find_suitable zero m size suitable = endless
find_suitable (suc fuel) m size suitable =
    let rest = find_suitable fuel m size (entry_next m suitable) in
    if ltb (entry_size m suitable) size then rest else ok suitable

unfoldable pub write_header : (addr size : ℕ) → Memory → Memory
write_header addr size m = write_word (addr + 4) size (write_word addr alloc_header_checksum m)

unfoldable pub needed_bytes : (size : ℕ) → ℕ
needed_bytes size = max ((size + header_bytes) % 2 ^ 32) free_entry_bytes

-- The address that is returned, and the allocator.
unfoldable pub alloc : (fuel size : ℕ) → FllAllocator → Outcome (ℕ × FllAllocator)
alloc fuel size h = if size == 0 then ok (null, h) else do
  suitable ← find_suitable fuel h.memory (needed_bytes size) h.first
  (kernel_assert (not (suitable == null)) (do
    (h', taken) ← llist_shrink suitable (needed_bytes size) h
    ok (
      (suitable + header_bytes) % 2 ^ 32,
      record h' { memory = write_header suitable taken h'.memory },
    )))

-- A distance is an `int`, given by its 32 bits; it is compared with a size as a word.
unfoldable pub distance : (above below : ℕ) → ℕ
distance above below = (above % 2 ^ 32 + 2 ^ 32 - below % 2 ^ 32) % 2 ^ 32

abbrev pub is_negative : ℕ → Bool
is_negative d = leb (2 ^ 31) d

unfoldable pub overlaps : (d size : ℕ) → Bool
overlaps d size = is_negative d && leb ((2 ^ 32 - size) % 2 ^ 32) d

-- The entry ends where the freed block begins; the entry behind may begin where that ends.
unfoldable pub extend : (entry size : ℕ) → FllAllocator → FllAllocator
extend entry size h =
    let grown = (entry_size h.memory entry + size) % 2 ^ 32 in
    let m1 = set_size entry grown h.memory in
    let next = entry_next m1 entry in
    let m2 = set_size entry ((grown + entry_size m1 next) % 2 ^ 32) m1 in
    if not (next == null) && (distance next (entry + grown) == 0)
    then llist_remove (entry_next m2 entry) (record h { memory = m2 })
    else record h { memory = m1 }

unfoldable pub free_loop : (fuel addr size entry : ℕ) → FllAllocator → Outcome FllAllocator
free_loop zero addr size entry h = endless
free_loop (suc fuel) addr size entry h =
    let top_distance = distance entry (addr + size) in
    let bottom_distance = distance addr (entry + entry_size h.memory entry) in
    let rest = free_loop fuel addr size (entry_next h.memory entry) h in
    kernel_assert (not (entry == null)) (
      kernel_assert (not (overlaps top_distance size) && not (overlaps bottom_distance size)) (
        if bottom_distance == 0
        then ok (extend entry size h)
        else if not (is_negative top_distance)
        then (if top_distance == 0
            then ok (llist_grow_up entry size h)
            else llist_insert_before entry addr size h)
        else if not (is_negative bottom_distance) && (entry_next h.memory entry == null)
        then llist_insert_after entry addr size h
        else rest))

-- An empty list gets the block as its entry: only the size is written, over the word behind the
-- header, and the links are what stood there.
unfoldable pub free : (fuel addr : ℕ) → FllAllocator → Outcome FllAllocator
free fuel addr h =
    let header = (addr + 2 ^ 32 - header_bytes) % 2 ^ 32 in
    let size = read_word h.memory (header + 4) in
    let m = write_word header 0 h.memory in
    kernel_assert ((read_word h.memory header == alloc_header_checksum) && ltb header_bytes size) (
      if h.first == null
      then ok (record h { memory = set_size header size m; first = header })
      else free_loop fuel header size h.first (record h { memory = m }))

-- The loop of get_unused runs once at least; the sum has 32 bits.
unfoldable pub count_free : (fuel counter entry : ℕ) → Memory → Outcome ℕ
count_free zero counter entry m = endless
count_free (suc fuel) counter entry m =
    let counted = (counter + entry_size m entry) % 2 ^ 32 in
    let rest = count_free fuel counted (entry_next m entry) m in
    if entry_next m entry == null then ok counted else rest

unfoldable pub get_unused : (fuel : ℕ) → FllAllocator → Outcome ℕ
get_unused fuel h = count_free fuel 0 h.first h.memory
