-- ===== src/MemoryManager/Tests.antt =====
-- Runs of the memory manager, and its theorems at a small machine.
use juice_os_kernel.Prelude.{
  ◌+◌, ◌*◌, ◌/◌, ◌%◌, ◌^◌, ◌≡◌, refl, ◌⊎◌, inl, true, false, some, [], ◌∷◌, arith, if◌then◌else◌,
}
use juice_os_kernel.BitmapAllocator.Defs.{
  alloc, search, visit, scan_bytes, scan_byte, trailing_ones, trailing_zeros, clamp_found,
  mark_pages, mark_bytes, mark_byte, mark_bit, count_page, divide_round_up, belongs,
}
use juice_os_kernel.MemoryManager.Defs.{
  MemoryManager, cleared, update, done, failed, page_fault, entry_present, not_belonging, translate,
  is_mapped, reaches, add_page_table, map_entries, map_present, paging_map, paging_unmap,
  alloc_pages, free_pages,
}
use juice_os_kernel.MemoryManager.Mapping.{
  new_page_table, translate-paging_map, paging_map-done_or_fault,
}
use juice_os_kernel.MemoryManager.Entries.{mapped}
use juice_os_kernel.MemoryManager.Unmapping.{paging_unmap-paging_map, free_pages-alloc_pages}

-- A kernel in a 4 MB page, and twelve pages of which two lie below 4 MB, the second in use.
abbrev booted : MemoryManager
booted = record {
  directory =
      update
        (λ _. record {
          present = false;
          writable = false;
          usermode_accessable = false;
          four_mb_pages = false;
          address = 0;
        })
        0
        (record {
          present = true;
          writable = true;
          usermode_accessable = false;
          four_mb_pages = true;
          address = 0;
        });
  tables = λ _ _. cleared;
  page_allocator = record {
    bitmap_offset = 0;
    bitmap_data = 0x3fd000;
    bitmap = 0x02 ∷ 0x00 ∷ [];
    begin = 0x3fe000;
    pages_count = 12;
    first_free_bitmap_byte = 0;
    used_pages = 1;
  };
}

-- `alloc_pages` of two pages: pages 2 and 3, and page 0 for the page table.
abbrev mapped_two : MemoryManager
mapped_two = record {
  directory = update booted.directory 1 (record {
    present = true;
    writable = true;
    usermode_accessable = false;
    four_mb_pages = false;
    address = 0x3fe;
  });
  tables =
      update (update booted.tables 0x3fe (λ _. cleared)) 0x3fe
        (update (update (λ _. cleared) 0 (mapped 0x400)) 1 (mapped 0x401));
  page_allocator = record {
    bitmap_offset = 0;
    bitmap_data = 0x3fd000;
    bitmap = 0x0f ∷ 0x00 ∷ [];
    begin = 0x3fe000;
    pages_count = 12;
    first_free_bitmap_byte = 0;
    used_pages = 4;
  };
}

alloc_two : alloc_pages 2 booted ≡ done (0x400000, mapped_two)
unfolding alloc_pages paging_map map_present map_entries add_page_table reaches is_mapped translate
    alloc search visit scan_bytes scan_byte trailing_ones trailing_zeros clamp_found mark_pages
    mark_bytes mark_byte mark_bit count_page divide_round_up
alloc_two = cc

free_pages-alloc_pages_example :
    free_pages 0x400000 2 mapped_two
    ≡ failed (if belongs 0x400000 mapped_two.page_allocator then entry_present else not_belonging)
free_pages-alloc_pages_example =
    free_pages-alloc_pages 2 0x400000 booted mapped_two (omega arith) alloc_two refl

-- The state after the two pages have been taken, as `alloc_pages` hands it to `paging_map`.
abbrev taken : MemoryManager
taken = record booted {
  page_allocator = record mapped_two.page_allocator { bitmap = 0x0e ∷ 0x00 ∷ []; used_pages = 3 };
}

map_taken : paging_map 0x400000 2 taken ≡ done mapped_two
unfolding paging_map map_present map_entries add_page_table reaches is_mapped translate alloc search
    visit scan_bytes scan_byte trailing_ones trailing_zeros clamp_found mark_pages mark_bytes
    mark_byte mark_bit count_page divide_round_up
map_taken = cc

paging_map-done_or_fault_example :
    ((((taken.directory (0x400000 / 2 ^ 22 % 1024)).present ≡ true)
        ⊎ (is_mapped taken (new_page_table taken) ≡ true))
      × ((mm : MemoryManager) × (paging_map 0x400000 2 taken ≡ done mm)))
    ⊎ (((taken.directory (0x400000 / 2 ^ 22 % 1024)).present ≡ false)
        × (is_mapped taken (new_page_table taken) ≡ false)
        × (paging_map 0x400000 2 taken ≡ page_fault))
unfolding alloc search visit scan_bytes scan_byte trailing_ones trailing_zeros clamp_found
    mark_pages mark_bytes mark_byte mark_bit count_page divide_round_up
paging_map-done_or_fault_example =
    paging_map-done_or_fault 0x400000 2 taken (omega arith) (inl (refl, inl (refl, refl)))

-- With the page below 4 MB in use too, the page table would lie at 0x402000.
abbrev none_below : MemoryManager
none_below = record taken {
  page_allocator = record mapped_two.page_allocator { bitmap = 0x0f ∷ 0x00 ∷ []; used_pages = 4 };
}

faults : paging_map 0x400000 2 none_below ≡ page_fault
unfolding paging_map add_page_table is_mapped translate alloc search visit scan_bytes scan_byte
    trailing_ones trailing_zeros clamp_found mark_pages mark_bytes mark_byte mark_bit count_page
    divide_round_up
faults = refl

translate-paging_map_example :
    translate mapped_two (0x400000 + 1 * 4096 + 0x123) ≡ some (0x400000 + 1 * 4096 + 0x123)
translate-paging_map_example =
    translate-paging_map 0x400000 2 taken mapped_two 1 0x123 refl (omega arith) (omega arith)
      (omega arith) map_taken refl

paging_unmap-paging_map_example : paging_unmap 0x400000 2 mapped_two ≡ failed entry_present
paging_unmap-paging_map_example =
    paging_unmap-paging_map 0x400000 2 taken mapped_two (omega arith) map_taken refl
