-- ===== src/MemoryManager/Defs.antt =====
-- The state of kmmanager, and its functions under their names. Paging is on, and a page that is mapped is mapped to itself, as paging_map maps it; the directory is within reach.
use juice_os_kernel.Prelude.{
  ℕ, zero, suc, ◌+◌, ◌-◌, ◌*◌, ◌/◌, ◌%◌, ◌^◌, Bool, true, false, ◌||◌, Option, none, some, ltb,
  ◌==◌, if◌then◌else◌,
}
use juice_os_kernel.BitmapAllocator.Defs.{
  BitmapAllocator, alloc, free, belongs, divide_round_up, get_used_size,
}

-- The bits that the kernel writes of a directory entry. `address` is the number of the page that
-- holds the page table (`to_pagetable.address`), or of the 4 MB page (`to_4MB.address_31_22`).
pub record DirectoryEntry : Type 0 where
  pub present : Bool
  pub writable : Bool
  pub usermode_accessable : Bool
  pub four_mb_pages : Bool
  pub address : ℕ

pub record TableEntry : Type 0 where
  pub present : Bool
  pub read_write : Bool
  pub user_mode : Bool
  pub address : ℕ

abbrev pub PageTable : Type 0
PageTable = ℕ → TableEntry

abbrev pub cleared : TableEntry
cleared = record { present = false; read_write = false; user_mode = false; address = 0 }

-- `kernelPagingDir` with the page tables, by the number of the page that each lies in, and
-- `pageAllocator`.
pub record MemoryManager : Type 0 where
  pub directory : ℕ → DirectoryEntry
  pub tables : ℕ → PageTable
  pub page_allocator : BitmapAllocator

abbrev pub update {ℓ} : {A : Type ℓ} → (ℕ → A) → ℕ → A → ℕ → A
update f k v j = if j == k then v else f j

-- `kpaging::addr::from`.
pub record Address : Type 0 where
  pub offset : ℕ
  pub table_entry : ℕ
  pub dir_entry : ℕ

abbrev pub from : ℕ → Address
from ptr = record {
  offset = ptr % 4096;
  table_entry = ptr / 4096 % 1024;
  dir_entry = ptr / 2 ^ 22 % 1024;
}

-- The assertions that stop the kernel: those of `paging_map` and `paging_unmap` on the pages that
-- are left in the table, on an entry's present bit, and on the directory entry's; that of
-- `free_pages`; and those of `bitmap_allocator::free`.
pub data Assertion : Type 0 where
  no_space : Assertion
  entry_present : Assertion
  directory_entry_absent : Assertion
  not_belonging : Assertion
  page_allocator_free : Assertion

-- `page_fault` is an access to an address that is not mapped: its handler stops the kernel.
pub data Outcome (A : Type 0) : Type 0 where
  done : A → Outcome A
  failed : Assertion → Outcome A
  page_fault : Outcome A

abbrev pub and_then : {A B : Type 0} → Outcome A → (A → Outcome B) → Outcome B
and_then (done a) next = next a
and_then (failed assertion) next = failed assertion
and_then page_fault next = page_fault

-- Two-level paging as the processor does it: the address that `addr` is translated to, if the
-- entries on the way are present.
abbrev pub walk_table : TableEntry → (offset : ℕ) → Option ℕ
walk_table e offset = if e.present then some (e.address * 4096 + offset) else none

abbrev pub walk : DirectoryEntry → (ℕ → PageTable) → Option ℕ → (index offset : ℕ) → Option ℕ
walk e tables large index offset =
    if e.present
    then (if e.four_mb_pages then large else walk_table (tables e.address index) offset)
    else none

unfoldable pub translate : MemoryManager → ℕ → Option ℕ
translate mm addr =
    let e = mm.directory (addr / 2 ^ 22 % 1024) in
    walk e mm.tables (some (e.address * 2 ^ 22 + addr % 2 ^ 22)) (addr / 4096 % 1024) (addr % 4096)

abbrev pub is_some : Option ℕ → Bool
is_some none = false
is_some (some addr) = true

unfoldable pub is_mapped : MemoryManager → ℕ → Bool
is_mapped mm addr = is_some (translate mm addr)

-- A loop of `count` rounds over the entries of a page table reads the table with its first round.
unfoldable pub reaches : (count page : ℕ) → MemoryManager → Bool
reaches count page mm = (count == 0) || is_mapped mm (page * 4096)

-- The page table that a directory entry without one is given, and that `mem_fill` clears. A
-- refused page comes as the null pointer, and is used like any other.
unfoldable pub add_page_table : ℕ → MemoryManager → Outcome MemoryManager
add_page_table dir_entry mm =
    let (new_page_table, page_allocator') = alloc (divide_round_up 4096 4096) mm.page_allocator in
    if is_mapped mm new_page_table
    then done (record {
      directory = update mm.directory dir_entry (record {
        present = true;
        writable = true;
        usermode_accessable = false;
        four_mb_pages = false;
        address = new_page_table / 2 ^ 12;
      });
      tables = update mm.tables (new_page_table / 2 ^ 12) (λ _. cleared);
      page_allocator = page_allocator';
    })
    else page_fault

-- The loop of `paging_map`, with `count` rounds left.
unfoldable pub map_entries : (count index page : ℕ) → PageTable → Outcome PageTable
map_entries zero index page table = done table
map_entries (suc count) index page table =
    let rest = map_entries count (index + 1) (page + 1) (
      update table index (record {
        present = true;
        read_write = true;
        user_mode = false;
        address = page % 2 ^ 20;
      })) in
    if (table index).present then failed entry_present else rest

-- The loop of `paging_unmap`.
unfoldable pub unmap_entries : (count index : ℕ) → PageTable → Outcome PageTable
unmap_entries zero index table = done table
unmap_entries (suc count) index table =
    let rest =
      unmap_entries count (index + 1)
        (update table index (record (table index) { present = false })) in
    if (table index).present then failed entry_present else rest

-- The state behind a loop over `count` entries of the table in `page`.
abbrev pub with_table : MemoryManager → (count page : ℕ) → Outcome PageTable → Outcome MemoryManager
with_table mm count page loop =
    if reaches count page mm
    then and_then loop (λ table. done (record mm { tables = update mm.tables page table }))
    else page_fault

-- `paging_map` behind the test of `dirEntry.present`.
unfoldable pub map_present : (addr page_count : ℕ) → MemoryManager → Outcome MemoryManager
map_present addr page_count mm =
    let d = from addr in
    let entry = mm.directory d.dir_entry in
    if entry.four_mb_pages
    then done mm
    else if ltb page_count (1024 - d.table_entry)
    then with_table mm page_count entry.address
        (map_entries page_count d.table_entry (addr / 2 ^ 12) (mm.tables entry.address))
    else failed no_space

unfoldable pub paging_map : (addr page_count : ℕ) → MemoryManager → Outcome MemoryManager
paging_map addr page_count mm =
    let dir_entry = addr / 2 ^ 22 % 1024 in
    and_then (if (mm.directory dir_entry).present then done mm else add_page_table dir_entry mm)
      (map_present addr page_count)

unfoldable pub paging_unmap : (addr count : ℕ) → MemoryManager → Outcome MemoryManager
paging_unmap addr count mm =
    let d = from addr in
    let entry = mm.directory d.dir_entry in
    if entry.present
    then (if entry.four_mb_pages
        then done mm
        else if ltb count (1024 - d.table_entry)
        then with_table mm count entry.address
            (unmap_entries count d.table_entry (mm.tables entry.address))
        else failed no_space)
    else failed directory_entry_absent

unfoldable pub alloc_pages : ℕ → MemoryManager → Outcome (ℕ × MemoryManager)
alloc_pages amount mm =
    let (allocated, page_allocator') = alloc amount mm.page_allocator in
    and_then (paging_map allocated amount (record mm { page_allocator = page_allocator' }))
      (λ mm'. done (allocated, mm'))

abbrev pub free_in : MemoryManager → Option BitmapAllocator → Outcome MemoryManager
free_in mm none = failed page_allocator_free
free_in mm (some page_allocator') = done (record mm { page_allocator = page_allocator' })

unfoldable pub free_pages : (addr count : ℕ) → MemoryManager → Outcome MemoryManager
free_pages addr count mm =
    if belongs addr mm.page_allocator
    then and_then (paging_unmap addr count mm)
        (λ mm'. free_in mm' (free addr count mm'.page_allocator))
    else failed not_belonging

unfoldable pub get_allocated : MemoryManager → ℕ
get_allocated mm = get_used_size mm.page_allocator

unfoldable pub get_page_count_for : ℕ → ℕ
get_page_count_for size_in_bytes = divide_round_up size_in_bytes 4096
