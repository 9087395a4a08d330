-- ===== src/BitmapAllocator/Tests.antt =====
-- Runs of the page allocator, and its theorems at concrete allocators.
use juice_os_kernel.Prelude.{
  ℕ, ◌+◌, ◌*◌, ◌≡◌, refl, ◌≢◌, false, some, [], ◌∷◌, arith, length, bits_of, bits,
}
use juice_os_kernel.BitmapAllocator.Defs.{
  BitmapAllocator, init, alloc, free, search, visit, scan_bytes, scan_byte, trailing_ones,
  trailing_zeros, clamp_found, mark_pages, mark_bytes, mark_byte, mark_bit, count_page, page_index,
  prepare_bitmap_space, divide_round_up, null, page_size,
}
use juice_os_kernel.BitmapAllocator.Runs.{AllIn, first_fit}
use juice_os_kernel.BitmapAllocator.FirstFit.{search-first_fit, outcome}
use juice_os_kernel.BitmapAllocator.Ranges.{count_set}
use juice_os_kernel.BitmapAllocator.Validity.{IsValid}
use juice_os_kernel.BitmapAllocator.Granting.{IsGrant, alloc-IsGrant, alloc-ne-null, alloc-IsValid}
use juice_os_kernel.BitmapAllocator.Freeing.{IsRelease, free-IsRelease, free-alloc}
use juice_os_kernel.BitmapAllocator.Init.{IsSpace, init-IsValid}

-- Twelve pages from address 0x2000 on, of which 0, 1, 2 and 8 are in use.
abbrev some_used : BitmapAllocator
some_used = record {
  bitmap_offset = 0;
  bitmap_data = 0x1000;
  bitmap = 0x07 ∷ 0x01 ∷ [];
  begin = 0x2000;
  pages_count = 12;
  first_free_bitmap_byte = 0;
  used_pages = 4;
}

abbrev after_four : BitmapAllocator
after_four = record some_used { bitmap = 0x7f ∷ 0x01 ∷ []; used_pages = 8 }

some_used-IsValid : IsValid some_used
unfolding bits bits_of count_set
some_used-IsValid = ground arith

alloc_four : alloc 4 some_used ≡ (0x5000, after_four)
unfolding alloc search visit scan_bytes scan_byte trailing_ones trailing_zeros clamp_found
    mark_pages mark_bytes mark_byte mark_bit count_page
alloc_four = refl

alloc_six : (alloc 6 some_used).0 ≡ null
unfolding alloc search visit scan_bytes scan_byte trailing_ones trailing_zeros clamp_found
alloc_six = refl

free_four : free 0x5000 4 after_four ≡ some some_used
unfolding free page_index mark_pages mark_bytes mark_byte mark_bit count_page
free_four = refl

four-ne-null : (alloc 4 some_used).0 ≢ null
four-ne-null = rw alloc_four (omega arith)

alloc-IsGrant_example :
    (s : ℕ) × ((alloc 4 some_used).0 ≡ 0x2000 + s * page_size)
    × IsGrant 4 some_used s (alloc 4 some_used).1
alloc-IsGrant_example = alloc-IsGrant some_used-IsValid 4 (omega arith) four-ne-null

alloc-ne-null_example : (alloc 4 some_used).0 ≢ null
unfolding bits bits_of
alloc-ne-null_example =
    alloc-ne-null some_used-IsValid 4 (omega arith) 4 (refl, (refl, (refl, (refl, tt))))
      (omega arith)

alloc-IsValid_example : IsValid (alloc 4 some_used).1
alloc-IsValid_example = alloc-IsValid 4 some_used-IsValid

free-IsRelease_example :
    (a' : BitmapAllocator) × (free (0x2000 + 1 * page_size) 2 some_used ≡ some a')
    × IsRelease 2 some_used 1 a'
unfolding bits bits_of
free-IsRelease_example =
    free-IsRelease some_used-IsValid 2 (omega arith) 1 (omega arith) (refl, (refl, tt))

free-alloc_example :
    let (p, a') = alloc 4 some_used in
    (a'' : BitmapAllocator) × (free p 4 a' ≡ some a'')
    × (bits a''.bitmap ≡ bits (0x07 ∷ 0x01 ∷ []))
    × (a''.used_pages ≡ 4)
    × IsValid a''
free-alloc_example = free-alloc some_used-IsValid 4 (omega arith) four-ne-null

search-first_fit_example :
    outcome 4 (search 4 some_used) ≡ first_fit 4 0 0 (bits (0x07 ∷ 0x01 ∷ []))
search-first_fit_example =
    search-first_fit 4 some_used (omega arith, tt) (omega arith) (omega arith) (omega arith)

-- A space of 100 pages at 1 MB, with 64 KB kept in front.
abbrev blank : BitmapAllocator
blank = record some_used { bitmap_offset = 0x10000 }

space : IsSpace 0x100000 (100 * 4096) 0x10000
unfolding prepare_bitmap_space divide_round_up
space = record { aligned = refl; above_null = omega arith; room = omega arith }

init-IsValid_example :
    (a' : BitmapAllocator) × (init 0x100000 (100 * 4096) blank ≡ some a')
    × IsValid a'
    × (a'.pages_count ≡ 100)
    × AllIn false 0 (8 * length a'.bitmap) (bits a'.bitmap)
init-IsValid_example = init-IsValid 0x100000 (100 * 4096) blank space
