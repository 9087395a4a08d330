-- ===== src/BitmapAllocator/Init.antt =====
-- init of core/bitmap_allocator.cpp.
use juice_os_kernel.Prelude.{
  ℕ, zero, suc, ◌+◌, ◌-◌, ◌*◌, ◌/◌, ◌%◌, ◌≤◌, ◌<◌, ◌≡◌, refl, sym, false, some, arith, length,
  replicate, length-replicate, bits_of, bits, IsBytes-replicate,
}
use juice_os_kernel.BitmapAllocator.Defs.{
  BitmapAllocator, init, prepare_bitmap_space, divide_round_up, align_begin, word_mod, page_size,
}
use juice_os_kernel.BitmapAllocator.Runs.{AllIn}
use juice_os_kernel.BitmapAllocator.Ranges.{count_set}
use juice_os_kernel.BitmapAllocator.Validity.{IsValid}

bits-replicate : (n : ℕ) → bits (replicate n 0) ≡ replicate (8 * n) false
unfolding bits bits_of
bits-replicate zero = refl
bits-replicate (suc n) =
    let e : 8 * suc n ≡ suc (suc (suc (suc (suc (suc (suc (suc (8 * n)))))))) = omega arith in
    rw (e, bits-replicate n)

count_set-clear : (n : ℕ) → count_set (replicate n false) ≡ 0
unfolding count_set
count_set-clear zero = refl
count_set-clear (suc n) = count_set-clear n

AllIn-clear : (s m n : ℕ) → s + m ≤ n → AllIn false s m (replicate n false)
AllIn-clear s m zero h = omega arith
AllIn-clear zero zero (suc n) h = tt
AllIn-clear zero (suc m) (suc n) h = (refl, AllIn-clear 0 m n (omega arith))
AllIn-clear (suc s) m (suc n) h = AllIn-clear s m n (omega arith)

-- The space of an allocator: page aligned, above address 0, with room for the bitmap, and with
-- the pages counted from behind the bitmap still within the address space.
pub record IsSpace (space_ptr space_size offset : ℕ) : Type 0 where
  pub aligned : space_ptr % 4096 ≡ 0
  pub above_null : 0 < space_ptr
  pub room :
      space_ptr
        + offset
        + prepare_bitmap_space space_size
        + 4096
        + space_size / page_size * page_size
      ≤ word_mod

align_begin_lem :
    (addr : ℕ)
    → addr + 4096 ≤ word_mod
    → (align_begin addr % 4096 ≡ 0) × (addr ≤ align_begin addr) × (align_begin addr < addr + 4096)
unfolding align_begin
align_begin_lem addr h = ground arith

module _ (space_ptr space_size : ℕ) (a : BitmapAllocator)
    (ok : IsSpace space_ptr space_size a.bitmap_offset) where
  start : ℕ
  start = (space_ptr + a.bitmap_offset) % word_mod

  abbrev fresh : BitmapAllocator
  fresh = record {
    bitmap_offset = a.bitmap_offset;
    bitmap_data = start;
    bitmap = replicate (prepare_bitmap_space space_size) 0;
    begin = align_begin ((start + prepare_bitmap_space space_size) % word_mod);
    pages_count = space_size / page_size;
    first_free_bitmap_byte = 0;
    used_pages = 0;
  }

  init-fresh : init space_ptr space_size a ≡ some fresh
  unfolding init start
  init-fresh = let e = ok.aligned in ground arith

  begin_lem :
      (fresh.begin % 4096 ≡ 0)
      × (space_ptr + a.bitmap_offset + prepare_bitmap_space space_size ≤ fresh.begin)
      × (fresh.begin < space_ptr + a.bitmap_offset + prepare_bitmap_space space_size + 4096)
  unfolding start
  begin_lem =
      let r = ok.room in
      let e : ((space_ptr + a.bitmap_offset) % word_mod + prepare_bitmap_space space_size)
            % word_mod
          ≡ space_ptr + a.bitmap_offset + prepare_bitmap_space space_size =
        omega arith in
      rw e (
        align_begin_lem (space_ptr + a.bitmap_offset + prepare_bitmap_space space_size)
          (omega arith))

  bitmap-covers :
      (space_size / page_size ≤ 8 * prepare_bitmap_space space_size)
      × (8 * prepare_bitmap_space space_size < space_size / page_size + 8)
  unfolding prepare_bitmap_space divide_round_up
  bitmap-covers = omega arith

  -- `init` of a space succeeds, with a valid allocator of which no page is in use.
  pub init-IsValid :
      (a' : BitmapAllocator) × (init space_ptr space_size a ≡ some a')
      × IsValid a'
      × (a'.pages_count ≡ space_size / page_size)
      × AllIn false 0 (8 * length a'.bitmap) (bits a'.bitmap)
  init-IsValid =
      let n = prepare_bitmap_space space_size in
      let l = length-replicate {A = ℕ} n 0 in
      let (al, lo, hi) = begin_lem in
      let (c, s) = bitmap-covers in
      let r = ok.room in
      let p = ok.above_null in
      (
        fresh,
        init-fresh,
        record {
          bytes = IsBytes-replicate n 0 (omega arith);
          covers = rw l c;
          spare = rw l s;
          small = omega arith;
          full = (omega arith, tt);
          last_clear = rw (l, bits-replicate n) (AllIn-clear _ _ (8 * n) (omega arith));
          counted = rw (bits-replicate n) (sym (count_set-clear (8 * n)));
          aligned = al;
          above_null = omega arith;
          fits = omega arith;
        },
        refl,
        rw (l, bits-replicate n) (AllIn-clear 0 (8 * n) (8 * n) (omega arith)),
      )

  -- The pages are counted as if the bitmap and what lies before it took no room: with an offset
  -- of a page or more and a space of more than two pages, the page before the last, which `alloc`
  -- may hand out, ends behind the end of the space.
  pub init-beyond :
      4096 ≤ a.bitmap_offset
      → 2 * page_size < space_size
      → (a' : BitmapAllocator) × (init space_ptr space_size a ≡ some a')
        × (space_ptr + space_size < a'.begin + (a'.pages_count - 1) * page_size)
  init-beyond off big =
      let (al, lo, hi) = begin_lem in
      let (c, s) = bitmap-covers in let e = ok.aligned in (fresh, init-fresh, omega arith)
