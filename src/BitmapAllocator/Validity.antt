-- ===== src/BitmapAllocator/Validity.antt =====
-- The invariant of class bitmap_allocator of core/bitmap_allocator.cpp, and what mark_pages leaves of it.
use juice_os_kernel.Prelude.{
  ℕ, zero, suc, ◌+◌, ◌-◌, ◌*◌, ◌/◌, ◌%◌, ◌^◌, ◌≤◌, ◌<◌, ◌≡◌, refl, sym, ap, ◌∙◌, Bool, true, false,
  List, [], ◌∷◌, ◌++◌, arith, length, take, drop, replicate, take-append-drop, length-take, bits,
  IsBytes, bits-append, length-bits,
}
use juice_os_kernel.BitmapAllocator.Defs.{BitmapAllocator, mark_pages, word_mod, no_page}
use juice_os_kernel.BitmapAllocator.Fill.{fill, length-fill}
use juice_os_kernel.BitmapAllocator.Marking.{bits-mark_pages}
use juice_os_kernel.BitmapAllocator.Runs.{AllIn}
use juice_os_kernel.BitmapAllocator.FirstFree.{FullBelow, bits-AllFull}
use juice_os_kernel.BitmapAllocator.Ranges.{
  count_set, count_set-le, AllIn-behind_full, AllIn-fill_behind,
}

-- What the methods keep true: the bitmap has a bit for every page and less than a byte to spare,
-- `m_firstFreeBitmapByte` bounds a full front, `m_usedPages` counts the set bits, and the last
-- page, with the spare bits behind it, is never handed out.
pub record IsValid (a : BitmapAllocator) : Type 0 where
  pub bytes : IsBytes a.bitmap
  pub covers : a.pages_count ≤ 8 * length a.bitmap
  pub spare : 8 * length a.bitmap < a.pages_count + 8
  pub small : a.pages_count ≤ 2 ^ 20
  pub full : FullBelow a.first_free_bitmap_byte a.bitmap
  pub last_clear :
      AllIn false (a.pages_count - 1) (8 * length a.bitmap - (a.pages_count - 1)) (bits a.bitmap)
  pub counted : a.used_pages ≡ count_set (bits a.bitmap)
  pub aligned : a.begin % 4096 ≡ 0
  pub above_null : 0 < a.begin
  pub fits : a.begin + a.pages_count * 4096 ≤ word_mod

module _ {a : BitmapAllocator} (v : IsValid a) where
  pub used-small : a.used_pages ≤ 8 * length a.bitmap
  used-small =
      let c = v.counted in omega (arith, count_set-le (bits a.bitmap), length-bits a.bitmap)

  pub short_bitmap : length a.bitmap * 8 < no_page
  short_bitmap = let k = v.spare in let l = v.small in omega arith

-- A clear range starts behind the full front.
pub full_front :
    (s n k : ℕ) (cs : List ℕ) → FullBelow k cs → 0 < n → AllIn false s n (bits cs) → k * 8 ≤ s
full_front s n k cs (le, f) pos h =
    let front : bits (take k cs) ≡ replicate (k * 8) true =
      bits-AllFull (take k cs) f ∙ ap (λ j. replicate j true) (omega (arith, length-take k cs)) in
    let whole : bits cs ≡ replicate (k * 8) true ++ bits (drop k cs) =
      ap bits (sym (take-append-drop k cs))
      ∙ bits-append (take k cs) (drop k cs)
      ∙ ap (λ xs. xs ++ bits (drop k cs)) front in
    AllIn-behind_full (k * 8) s n (bits (drop k cs)) pos (rw whole at h)

take-append :
    (k n : ℕ) (cs ds : List ℕ) → k ≤ n → k ≤ length cs → take k (take n cs ++ ds) ≡ take k cs
take-append zero n cs ds h l = refl
take-append (suc k) zero cs ds h l = absurd (omega arith)
take-append (suc k) (suc n) [] ds h l = absurd (omega arith)
take-append (suc k) (suc n) (c ∷ cs) ds h l =
    ap (◌∷◌ c) (take-append k n cs ds (omega arith) (omega arith))

-- What marking leaves as it is.
module _ (start count : ℕ) (b : Bool) (a : BitmapAllocator) where
  pub mark_pages-fixed :
      ((mark_pages start count b a).begin ≡ a.begin)
      × ((mark_pages start count b a).pages_count ≡ a.pages_count)
      × ((mark_pages start count b a).first_free_bitmap_byte ≡ a.first_free_bitmap_byte)
  unfolding mark_pages
  mark_pages-fixed = (refl, refl, refl)

  -- The bytes before the first marked one.
  pub take-mark_pages :
      (k : ℕ)
      → k ≤ start / 8
      → k ≤ length a.bitmap
      → take k (mark_pages start count b a).bitmap ≡ take k a.bitmap
  unfolding mark_pages
  take-mark_pages k h l = take-append k (start / 8) a.bitmap _ h l

  pub length-mark_pages :
      IsBytes a.bitmap
      → a.used_pages < word_mod
      → length (mark_pages start count b a).bitmap ≡ length a.bitmap
  length-mark_pages h u =
      let (e, _, _) = bits-mark_pages start count b a h u in
      let k = ap length e in
      omega (
        arith,
        length-bits a.bitmap,
        length-bits (mark_pages start count b a).bitmap,
        length-fill b start count (bits a.bitmap),
      )

  pub FullBelow-mark_pages :
      IsBytes a.bitmap
      → a.used_pages < word_mod
      → (k : ℕ) → k ≤ start / 8
      → FullBelow k a.bitmap
      → FullBelow k (mark_pages start count b a).bitmap
  FullBelow-mark_pages h u k le (l, f) =
      (omega (arith, length-mark_pages h u), rw (take-mark_pages k le l) f)

-- A state that differs from a valid one by the marks of pages below the last one.
pub IsValid-marked :
    {a a' : BitmapAllocator} (b : Bool) (s n : ℕ)
    → IsValid a
    → s + n < a.pages_count
    → bits a'.bitmap ≡ fill b s n (bits a.bitmap)
    → IsBytes a'.bitmap
    → length a'.bitmap ≡ length a.bitmap
    → (a'.begin ≡ a.begin) × (a'.pages_count ≡ a.pages_count)
    → FullBelow a'.first_free_bitmap_byte a'.bitmap
    → a'.used_pages ≡ count_set (bits a'.bitmap)
    → IsValid a'
IsValid-marked {a} {a'} b s n v lt e h l (p, q) f u = record {
  bytes = h;
  covers = let k = v.covers in omega arith;
  spare = let k = v.spare in omega arith;
  small = let k = v.small in omega arith;
  full = f;
  last_clear =
      rw (e, l, q)
        (AllIn-fill_behind b false s n (a.pages_count - 1) _ (bits a.bitmap) (omega arith)
          v.last_clear);
  counted = u;
  aligned = rw p v.aligned;
  above_null = rw p v.above_null;
  fits = rw (p, q) v.fits;
}
