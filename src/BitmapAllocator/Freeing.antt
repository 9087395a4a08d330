-- ===== src/BitmapAllocator/Freeing.antt =====
-- free of core/bitmap_allocator.cpp, by itself and after alloc.
use juice_os_kernel.Prelude.{
  ℕ, zero, suc, ◌+◌, ◌*◌, ◌/◌, ◌%◌, ◌≤◌, ◌<◌, min, ◌≡◌, sym, ap, ◌∙◌, ◌≢◌, true, false, some, List,
  [], ◌∷◌, arith, take, bits,
}
use juice_os_kernel.BitmapAllocator.Defs.{
  BitmapAllocator, alloc, free, page_index, mark_pages, word_mod, page_size, null,
}
use juice_os_kernel.BitmapAllocator.Fill.{fill}
use juice_os_kernel.BitmapAllocator.Marking.{bits-mark_pages, advance, reached}
use juice_os_kernel.BitmapAllocator.Runs.{AllIn}
use juice_os_kernel.BitmapAllocator.FirstFree.{AllFull}
use juice_os_kernel.BitmapAllocator.Ranges.{count_set, count_set-fill-false, AllIn-fill, fill-fill}
use juice_os_kernel.BitmapAllocator.Validity.{
  IsValid, used-small, mark_pages-fixed, length-mark_pages, FullBelow-mark_pages, IsValid-marked,
}
use juice_os_kernel.BitmapAllocator.Granting.{alloc-IsGrant, alloc-IsValid}

-- What it is to give back `page_count` pages from page `s` on.
pub record IsRelease (page_count : ℕ) (a : BitmapAllocator) (s : ℕ) (a' : BitmapAllocator)
    : Type 0 where
  pub cleared : bits a'.bitmap ≡ fill false s page_count (bits a.bitmap)
  pub counted : a'.used_pages + page_count ≡ a.used_pages
  pub valid : IsValid a'

take-min : (j k : ℕ) (cs : List ℕ) → AllFull (take k cs) → AllFull (take (min k j) cs)
take-min j zero cs h = let e : min 0 j ≡ 0 = omega arith in rw e tt
take-min zero (suc k) cs h = let e : min (suc k) 0 ≡ 0 = omega arith in rw e tt
take-min (suc j) (suc k) [] h = let e : min (suc k) (suc j) ≡ suc (min k j) = omega arith in rw e tt
take-min (suc j) (suc k) (c ∷ cs) h =
    let e : min (suc k) (suc j) ≡ suc (min k j) = omega arith in rw e (h.0, take-min j k cs h.1)

advance-false : (used n : ℕ) → n ≤ used → used < word_mod → advance false used n + n ≡ used
unfolding advance
advance-false used n h u = omega arith

module _ {a : BitmapAllocator} (v : IsValid a) (page_count : ℕ) (pos : 0 < page_count) where
  page_index-page : (s : ℕ) → s < a.pages_count → page_index (a.begin + s * page_size) a ≡ s
  unfolding page_index
  page_index-page s lt = let f = v.fits in omega arith

  abbrev freed : ℕ → BitmapAllocator
  freed s = record (mark_pages s page_count false a) {
    first_free_bitmap_byte = min a.first_free_bitmap_byte (s / 8);
  }

  free-page :
      (s : ℕ) → s < a.pages_count → free (a.begin + s * page_size) page_count a ≡ some (freed s)
  unfolding free
  free-page s lt =
      let al : (a.begin + s * page_size) % 4096 ≡ 0 = let e = v.aligned in omega arith in
      rw (page_index-page s lt, al) (ground arith)

  IsRelease-freed :
      (s : ℕ)
      → s + page_count < a.pages_count
      → AllIn true s page_count (bits a.bitmap)
      → IsRelease page_count a s (freed s)
  IsRelease-freed s lt h =
      let k = v.small in
      let c = v.covers in
      let sp = v.spare in
      let u = used-small v in
      let (le, f) = v.full in
      let (m, b, n) = bits-mark_pages s page_count false a v.bytes (omega arith) in
      let (p, q, _) = mark_pages-fixed s page_count false a in
      let l = length-mark_pages s page_count false a v.bytes (omega arith) in
      let r : reached s page_count a ≡ page_count = omega arith in
      let less = count_set-fill-false s page_count (bits a.bitmap) h in
      let e = v.counted in
      let n' : (mark_pages s page_count false a).used_pages
          ≡ advance false a.used_pages page_count =
        n ∙ ap (advance false a.used_pages) r in
      let count : (mark_pages s page_count false a).used_pages + page_count ≡ a.used_pages =
        omega (arith, advance-false a.used_pages page_count) in
      record {
        cleared = m;
        counted = count;
        valid =
            IsValid-marked false s page_count v lt m b l (p, q)
              (FullBelow-mark_pages s page_count false a v.bytes (omega arith)
                (min a.first_free_bitmap_byte (s / 8)) (omega arith)
                (omega arith, take-min (s / 8) a.first_free_bitmap_byte a.bitmap f))
              (omega (arith, ap count_set m));
      }

  -- Freeing pages that are in use gives back exactly them and keeps the invariant.
  pub free-IsRelease :
      (s : ℕ)
      → s + page_count < a.pages_count
      → AllIn true s page_count (bits a.bitmap)
      → (a' : BitmapAllocator) × (free (a.begin + s * page_size) page_count a ≡ some a')
        × IsRelease page_count a s a'
  free-IsRelease s lt h = (freed s, free-page s (omega arith), IsRelease-freed s lt h)

-- Freeing a block as `alloc` gave it out succeeds, and brings the bitmap and the count back.
pub free-alloc :
    {a : BitmapAllocator}
    → IsValid a
    → (page_count : ℕ) → 0 < page_count
    → let (p, a') = alloc page_count a in
      p ≢ null
      → (a'' : BitmapAllocator) × (free p page_count a' ≡ some a'')
        × (bits a''.bitmap ≡ bits a.bitmap)
        × (a''.used_pages ≡ a.used_pages)
        × IsValid a''
free-alloc {a} v page_count pos ne =
    let (s, e, g) = alloc-IsGrant v page_count pos ne in
    let a' = (alloc page_count a).1 in
    let (p, q) = g.same_pages in
    let now : AllIn true s page_count (bits a'.bitmap) =
      rw g.marked (AllIn-fill true false s page_count (bits a.bitmap) g.was_clear) in
    let (a'', ok, r) =
      free-IsRelease (alloc-IsValid page_count v) page_count pos s
        (let lt = g.below_last in omega arith) now in
    (
      a'',
      ap (λ q. free q page_count a') (e ∙ ap (λ b. b + s * page_size) (sym p)) ∙ ok,
      r.cleared
          ∙ ap (fill false s page_count) g.marked
          ∙ fill-fill false true s page_count (bits a.bitmap) g.was_clear,
      (let x = r.counted in let y = g.counted in omega arith),
      r.valid,
    )
