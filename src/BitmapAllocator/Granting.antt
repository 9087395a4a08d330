-- ===== src/BitmapAllocator/Granting.antt =====
-- alloc of core/bitmap_allocator.cpp against what an allocator of pages promises.
use juice_os_kernel.Prelude.{
  ℕ, ◌+◌, ◌*◌, ◌/◌, ◌≤◌, ◌<◌, ◌≡◌, sym, ap, ◌∙◌, ◌≢◌, ◌⊎◌, inl, inr, true, false, some, arith,
  dec_lt, bits,
}
use juice_os_kernel.BitmapAllocator.Defs.{
  BitmapAllocator, alloc, search, mark_pages, word_mod, page_size, null,
}
use juice_os_kernel.BitmapAllocator.Fill.{fill}
use juice_os_kernel.BitmapAllocator.Marking.{bits-mark_pages, advance, reached}
use juice_os_kernel.BitmapAllocator.Runs.{AllIn, first_fit, first_fit-free, first_fit-le}
use juice_os_kernel.BitmapAllocator.FirstFree.{FullBelow}
use juice_os_kernel.BitmapAllocator.FirstFit.{search-FullBelow}
use juice_os_kernel.BitmapAllocator.Ranges.{count_set, count_set-fill-true}
use juice_os_kernel.BitmapAllocator.Validity.{
  IsValid, used-small, mark_pages-fixed, length-mark_pages, FullBelow-mark_pages, IsValid-marked,
  full_front,
}
use juice_os_kernel.BitmapAllocator.Alloc.{searched, page_address, Grants, Refuses, alloc-cases}

-- What a grant of `page_count` pages at page `s` is, from `a` to `a'`.
pub record IsGrant (page_count : ℕ) (a : BitmapAllocator) (s : ℕ) (a' : BitmapAllocator)
    : Type 0 where
  pub below_last : s + page_count < a.pages_count
  pub was_clear : AllIn false s page_count (bits a.bitmap)
  pub first : (t : ℕ) → AllIn false t page_count (bits a.bitmap) → s ≤ t
  pub marked : bits a'.bitmap ≡ fill true s page_count (bits a.bitmap)
  pub counted : a'.used_pages ≡ a.used_pages + page_count
  pub same_pages : (a'.begin ≡ a.begin) × (a'.pages_count ≡ a.pages_count)

advance-true : (used n : ℕ) → used + n < word_mod → advance true used n ≡ used + n
unfolding advance
advance-true used n h = omega arith

module _ {a : BitmapAllocator} (v : IsValid a) (page_count : ℕ) (pos : 0 < page_count) where
  page_address-eq : (s : ℕ) → s < a.pages_count → page_address a s ≡ a.begin + s * page_size
  page_address-eq s lt = let f = v.fits in omega arith

  IsGrant-mark :
      (s : ℕ)
      → first_fit page_count 0 0 (bits a.bitmap) ≡ some s
      → s + page_count < a.pages_count
      → IsGrant page_count a s (mark_pages s page_count true (searched page_count a))
  IsGrant-mark s e lt =
      let (clear, _) = first_fit-free page_count (bits a.bitmap) s pos e in
      let k = v.small in
      let c = v.covers in
      let sp = v.spare in
      let u = used-small v in
      let (m, _, n) =
        bits-mark_pages s page_count true (searched page_count a) v.bytes (omega arith) in
      let (b, p, _) = mark_pages-fixed s page_count true (searched page_count a) in
      let r : reached s page_count a ≡ page_count = omega arith in
      record {
        below_last = lt;
        was_clear = clear;
        first = λ t h. least t h;
        marked = m;
        counted =
            n
            ∙ ap (advance true a.used_pages) r
            ∙ advance-true a.used_pages page_count (omega arith);
        same_pages = (b, p);
      }
    where
      least : (t : ℕ) → AllIn false t page_count (bits a.bitmap) → s ≤ t
      least t h =
          let (s', e', le) = first_fit-le page_count 0 0 t (bits a.bitmap) pos (omega arith) h in
          let same : some s ≡ some s' = sym e ∙ e' in ground arith

  -- A block that `alloc` hands out is the lowest run of free pages that is long enough: it lies
  -- within the allocator's pages, it was free, it is in use afterwards and no other page changes,
  -- and the count of used pages grows by it.
  pub alloc-IsGrant :
      (alloc page_count a).0 ≢ null
      → (s : ℕ) × ((alloc page_count a).0 ≡ a.begin + s * page_size)
        × IsGrant page_count a s (alloc page_count a).1
  alloc-IsGrant ne = from (alloc-cases v page_count pos)
    where
      from :
          ((s : ℕ) × Grants v page_count pos s) ⊎ Refuses v page_count pos
          → (s : ℕ) × ((alloc page_count a).0 ≡ a.begin + s * page_size)
            × IsGrant page_count a s (alloc page_count a).1
      from (inl (s, (e, lt, eq))) =
          (s, rw eq (page_address-eq s (omega arith)), rw eq (IsGrant-mark s e lt))
      from (inr (eq, _)) = absurd (ne (ap (λ r. r.0) eq))

  -- If some run of free pages that is long enough ends before the last page, `alloc` succeeds.
  pub alloc-ne-null :
      (t : ℕ)
      → AllIn false t page_count (bits a.bitmap)
      → t + page_count < a.pages_count
      → (alloc page_count a).0 ≢ null
  alloc-ne-null t h lt = from (alloc-cases v page_count pos)
    where
      from :
          ((s : ℕ) × Grants v page_count pos s) ⊎ Refuses v page_count pos
          → (alloc page_count a).0 ≢ null
      from (inl (s, (e, lt, eq))) z =
          let b = v.above_null in
          let k = sym (page_address-eq s (omega arith)) ∙ sym (ap (λ r. r.0) eq) ∙ z in omega arith
      from (inr (eq, late)) z =
          let (s, e, le) = first_fit-le page_count 0 0 t (bits a.bitmap) pos (omega arith) h in
          omega (arith, late s e)

  IsValid-mark :
      (s : ℕ)
      → first_fit page_count 0 0 (bits a.bitmap) ≡ some s
      → s + page_count < a.pages_count
      → IsValid (mark_pages s page_count true (searched page_count a))
  IsValid-mark s e lt =
      let g = IsGrant-mark s e lt in
      let a₀ = searched page_count a in
      let clear = g.was_clear in
      let k = v.small in
      let sp = v.spare in
      let u = used-small v in
      let ff = search-FullBelow page_count a v.full in
      let (_, h, _) = bits-mark_pages s page_count true a₀ v.bytes (omega arith) in
      let (_, _, p) = mark_pages-fixed s page_count true a₀ in
      let after : a.used_pages + page_count ≡ count_set (fill true s page_count (bits a.bitmap)) =
        ap (λ n. n + page_count) v.counted
        ∙ sym (count_set-fill-true s page_count (bits a.bitmap) clear) in
      IsValid-marked true s page_count v lt g.marked h
        (length-mark_pages s page_count true a₀ v.bytes (omega arith)) g.same_pages
        (rw p (
          FullBelow-mark_pages s page_count true a₀ v.bytes (omega arith)
            (search page_count a).first_free_bitmap_byte (low s ff clear) ff))
        (g.counted ∙ after ∙ ap count_set (sym g.marked))
    where
      low :
          (s : ℕ)
          → FullBelow (search page_count a).first_free_bitmap_byte a.bitmap
          → AllIn false s page_count (bits a.bitmap)
          → (search page_count a).first_free_bitmap_byte ≤ s / 8
      low s ff clear = omega (arith, full_front s page_count _ a.bitmap ff pos clear)

alloc-zero :
    (page_count : ℕ) (a : BitmapAllocator) → page_count ≡ 0 → alloc page_count a ≡ (null, a)
unfolding alloc
alloc-zero page_count a z = ground arith

IsValid-searched :
    {a : BitmapAllocator} → IsValid a → (page_count : ℕ) → IsValid (searched page_count a)
IsValid-searched {a} v page_count = record {
  bytes = v.bytes;
  covers = v.covers;
  spare = v.spare;
  small = v.small;
  full = search-FullBelow page_count a v.full;
  last_clear = v.last_clear;
  counted = v.counted;
  aligned = v.aligned;
  above_null = v.above_null;
  fits = v.fits;
}

-- `alloc` keeps the invariant, whether it hands out a block or refuses.
pub alloc-IsValid :
    {a : BitmapAllocator} (page_count : ℕ) → IsValid a → IsValid (alloc page_count a).1
alloc-IsValid {a} page_count v = elim (dec_lt 0 page_count) [
  | yes pos ↦ from pos (alloc-cases v page_count pos)
  | no z ↦ rw (alloc-zero page_count a (omega arith)) v
]
  where
    from :
        (pos : 0 < page_count)
        → ((s : ℕ) × Grants v page_count pos s) ⊎ Refuses v page_count pos
        → IsValid (alloc page_count a).1
    from pos (inl (s, (e, lt, eq))) = rw eq (IsValid-mark v page_count pos s e lt)
    from pos (inr (eq, _)) = rw eq (IsValid-searched v page_count)

-- A refusal, also of a request for no page, changes neither the bitmap nor the count.
pub alloc-null :
    {a : BitmapAllocator} (page_count : ℕ)
    → IsValid a
    → (alloc page_count a).0 ≡ null
    → ((alloc page_count a).1.bitmap ≡ a.bitmap)
      × ((alloc page_count a).1.used_pages ≡ a.used_pages)
alloc-null {a} page_count v z = elim (dec_lt 0 page_count) [
  | yes pos ↦ from pos (alloc-cases v page_count pos)
  | no h ↦ let e = alloc-zero page_count a (omega arith) in (rw e, rw e)
]
  where
    from :
        (pos : 0 < page_count)
        → ((s : ℕ) × Grants v page_count pos s) ⊎ Refuses v page_count pos
        → ((alloc page_count a).1.bitmap ≡ a.bitmap)
          × ((alloc page_count a).1.used_pages ≡ a.used_pages)
    from pos (inl (s, (e, lt, eq))) =
        let b = v.above_null in
        let k =
          sym (page_address-eq v page_count pos s (omega arith)) ∙ sym (ap (λ r. r.0) eq) ∙ z in
        absurd (omega arith)
    from pos (inr (eq, _)) = (rw eq, rw eq)
