-- ===== src/BitmapAllocator/Defs.antt =====
-- The state and the methods of class bitmap_allocator.
use juice_os_kernel.Prelude.{
  ℕ, zero, suc, ◌+◌, ◌-◌, ◌*◌, ◌/◌, ◌%◌, ◌^◌, min, bit_and, bit_or, Bool, true, false, ◌&&◌, Option,
  none, some, List, [], ◌∷◌, ◌++◌, ltb, leb, ◌==◌, if◌then◌else◌, take, drop, replicate,
}

abbrev pub word_mod : ℕ
word_mod = 2 ^ 32

abbrev pub page_size : ℕ
page_size = 4096

-- `(size_t)-1`, the value of `startPage` while no run is open.
abbrev pub no_page : ℕ
no_page = 2 ^ 32 - 1

abbrev pub null : ℕ
null = 0

pub record BitmapAllocator : Type 0 where
  pub bitmap_offset : ℕ
  pub bitmap_data : ℕ
  pub bitmap : List ℕ
  pub begin : ℕ
  pub pages_count : ℕ
  pub first_free_bitmap_byte : ℕ
  pub used_pages : ℕ

-- `divide_round_up` of math.h.
unfoldable pub divide_round_up : ℕ → ℕ → ℕ
divide_round_up a b = a / b + min 1 (a % b)

unfoldable pub prepare_bitmap_space : ℕ → ℕ
unfolding divide_round_up
prepare_bitmap_space space_size = divide_round_up (space_size / page_size) 8

unfoldable pub set_bitmap_offset : ℕ → BitmapAllocator → BitmapAllocator
set_bitmap_offset offset a = record a { bitmap_offset = offset }

-- `m_begin` is the first page boundary at or behind the end of the bitmap.
unfoldable pub align_begin : ℕ → ℕ
align_begin addr = if ltb 0 (addr % 4096) then (addr / 4096 * 4096 + 0x1000) % word_mod else addr

-- `none` stands for a failed assertion.
unfoldable pub init : (space_ptr space_size : ℕ) → BitmapAllocator → Option BitmapAllocator
init space_ptr space_size a =
    let bitmap_length = prepare_bitmap_space space_size in
    let bitmap_start = (space_ptr + a.bitmap_offset) % word_mod in
    if space_ptr % 4096 == 0
    then some (record {
      bitmap_offset = a.bitmap_offset;
      bitmap_data = bitmap_start;
      bitmap = replicate bitmap_length 0;
      begin = align_begin ((bitmap_start + bitmap_length) % word_mod);
      pages_count = space_size / page_size;
      first_free_bitmap_byte = 0;
      used_pages = 0;
    })
    else none

-- `__builtin_ctz(~cur)` and `__builtin_ctz(cur)` of a byte, by at most `n` steps.
unfoldable pub trailing_ones : ℕ → ℕ → ℕ
trailing_ones zero c = 0
trailing_ones (suc n) c = if c % 2 == 1 then suc (trailing_ones n (c / 2)) else 0

unfoldable pub trailing_zeros : ℕ → ℕ → ℕ
trailing_zeros zero c = 0
trailing_zeros (suc n) c = if c % 2 == 1 then 0 else suc (trailing_zeros n (c / 2))

-- The loop over the bits of `m_bitmapData[i]`, on fuel; the result is `found` and `startPage`.
-- Every round moves `bit` on, so nine rounds are enough.
unfoldable pub scan_byte : (fuel page_count i cur bit found start_page : ℕ) → ℕ × ℕ
scan_byte zero page_count i cur bit found start_page = (found, start_page)
scan_byte (suc fuel) page_count i cur bit found start_page =
    let ones = trailing_ones 8 cur in
    let zeroes = trailing_zeros 8 cur in
    let start_page' = if start_page == no_page then (i * 8 + bit) % word_mod else start_page in
    let skipped = scan_byte fuel page_count i (cur / 2 ^ ones) (bit + ones) 0 no_page in
    let counted =
      scan_byte fuel page_count i (cur / 2 ^ zeroes) (bit + zeroes) (found + zeroes) start_page' in
    if leb 8 bit
    then (found, start_page)
    else if ltb 0 ones
    then (if leb page_count found then (found, start_page) else skipped)
    else if cur == 0
    then (found + (8 - bit), start_page')
    else counted

-- The variables of the search in `alloc`.
pub record Scan : Type 0 where
  pub found : ℕ
  pub start_page : ℕ
  pub has_found_first_free_byte : Bool
  pub first_free_bitmap_byte : ℕ

-- One round of the loop over the bitmap, behind its `break`.
unfoldable pub visit : (page_count i cur : ℕ) → Scan → Scan
visit page_count i cur s =
    let (found, start_page) = scan_byte 9 page_count i cur 0 s.found s.start_page in
    if cur == 0xff then record s { found = 0; start_page = no_page } else record {
      found = found;
      start_page = start_page;
      has_found_first_free_byte = true;
      first_free_bitmap_byte = if s.has_found_first_free_byte then s.first_free_bitmap_byte else i;
    }

-- The list is `m_bitmapData[i ..]`.
unfoldable pub scan_bytes : (page_count : ℕ) → List ℕ → (i : ℕ) → Scan → Scan
scan_bytes page_count [] i s = s
scan_bytes page_count (cur ∷ rest) i s =
    if leb page_count s.found
    then s
    else scan_bytes page_count rest (i + 1) (visit page_count i cur s)

unfoldable pub search : ℕ → BitmapAllocator → Scan
search page_count a =
    scan_bytes page_count (drop a.first_free_bitmap_byte a.bitmap) a.first_free_bitmap_byte
      (record {
        found = 0;
        start_page = no_page;
        has_found_first_free_byte = false;
        first_free_bitmap_byte = a.first_free_bitmap_byte;
      })

-- `cur |= 1 << bitIdx` and `cur &= ~(1 << bitIdx)`, on a byte.
unfoldable pub mark_bit : (is_used : Bool) → (bit_idx cur : ℕ) → ℕ
mark_bit true bit_idx cur = bit_or cur (2 ^ bit_idx)
mark_bit false bit_idx cur = bit_and cur (0xff - 2 ^ bit_idx)

unfoldable pub count_page : (is_used : Bool) → ℕ → ℕ
count_page true used = (used + 1) % word_mod
count_page false used = (used + (word_mod - 1)) % word_mod

pub record Marked : Type 0 where
  pub cur : ℕ
  pub count : ℕ
  pub used_pages : ℕ

-- The inner loop of `mark_pages`, with the rounds `8 - bitIdx` left. It returns at `count == 0`,
-- and the outer loop then changes nothing more.
unfoldable pub mark_byte : (rounds : ℕ) → (is_used : Bool) → (bit_idx cur count used : ℕ) → Marked
mark_byte zero is_used bit_idx cur count used = record {
  cur = cur;
  count = count;
  used_pages = used;
}
mark_byte (suc rounds) is_used bit_idx cur count used =
    let rest =
      mark_byte rounds is_used (bit_idx + 1) (mark_bit is_used bit_idx cur) (count - 1)
        (count_page is_used used) in
    if count == 0 then record { cur = cur; count = count; used_pages = used } else rest

-- The outer loop, over `m_bitmapData[i ..]`.
unfoldable pub mark_bytes :
    (is_used : Bool) → List ℕ → (first_clear_bit count used : ℕ) → List ℕ × ℕ
mark_bytes is_used [] first_clear_bit count used = ([], used)
mark_bytes is_used (cur ∷ rest) first_clear_bit count used =
    let m = mark_byte (8 - first_clear_bit) is_used first_clear_bit cur count used in
    let (rest', used') = mark_bytes is_used rest 0 m.count m.used_pages in (m.cur ∷ rest', used')

unfoldable pub mark_pages :
    (start_page count : ℕ) → (is_used : Bool) → BitmapAllocator → BitmapAllocator
mark_pages start_page count is_used a =
    let i = start_page / 8 in
    let (marked, used') =
      mark_bytes is_used (drop i a.bitmap) (start_page % 8) count a.used_pages in
    record a { bitmap = take i a.bitmap ++ marked; used_pages = used' }

-- `min(found, (m_pagesCount - startPage) - 1)` in `size_t` arithmetic.
unfoldable pub clamp_found : (page_count pages_count found start_page : ℕ) → ℕ
clamp_found page_count pages_count found start_page =
    min (min found page_count) ((pages_count + 2 * word_mod - start_page - 1) % word_mod)

unfoldable pub alloc : ℕ → BitmapAllocator → ℕ × BitmapAllocator
alloc page_count a =
    let s = search page_count a in
    let a' = record a { first_free_bitmap_byte = s.first_free_bitmap_byte } in
    if page_count == 0
    then (null, a)
    else if s.found == 0
    then (null, a')
    else if ltb (clamp_found page_count a.pages_count s.found s.start_page) page_count
    then (null, a')
    else (
      (a.begin + s.start_page * page_size) % word_mod,
      mark_pages s.start_page page_count true a',
    )

-- The page number of an address, `((uint8*)pageAddr - (uint8*)m_begin) / PAGE_SIZE`.
unfoldable pub page_index : ℕ → BitmapAllocator → ℕ
page_index page_addr a = (page_addr + word_mod - a.begin) % word_mod / page_size

-- `none` stands for a failed assertion.
unfoldable pub free : (page_addr page_count : ℕ) → BitmapAllocator → Option BitmapAllocator
free page_addr page_count a =
    let index = page_index page_addr a in
    let a' = mark_pages index page_count false a in
    if page_count == 0
    then some a
    else if (page_addr % 4096 == 0) && ltb index a.pages_count
    then some (record a' { first_free_bitmap_byte = min a.first_free_bitmap_byte (index / 8) })
    else none

unfoldable pub belongs : ℕ → BitmapAllocator → Bool
belongs addr a = leb a.begin addr && ltb addr ((a.begin + a.pages_count * page_size) % word_mod)

unfoldable pub get_used_size : BitmapAllocator → ℕ
get_used_size a = a.used_pages * page_size % word_mod

unfoldable pub get_size : BitmapAllocator → ℕ
get_size a = a.pages_count * page_size % word_mod
