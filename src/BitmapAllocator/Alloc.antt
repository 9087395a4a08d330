-- ===== src/BitmapAllocator/Alloc.antt =====
-- alloc of core/bitmap_allocator.cpp: which pages it hands out, and when it refuses.
use juice_os_kernel.Prelude.{
  ℕ, ◌+◌, ◌-◌, ◌*◌, ◌%◌, ◌^◌, ◌≤◌, ◌<◌, ◌≡◌, refl, sym, ◌∙◌, ◌⊎◌, inl, inr, Bool, true, false, not,
  none, some, arith, ltb, leb, if◌then◌else◌, dec_lt, Option-cases, length, bits, length-bits,
}
use juice_os_kernel.BitmapAllocator.Defs.{
  BitmapAllocator, alloc, search, clamp_found, mark_pages, word_mod, page_size, null,
}
use juice_os_kernel.BitmapAllocator.Runs.{AllIn, first_fit, first_fit-free}
use juice_os_kernel.BitmapAllocator.FirstFit.{search-first_fit}
use juice_os_kernel.BitmapAllocator.Ranges.{AllIn-lt, AllIn-apart}
use juice_os_kernel.BitmapAllocator.Validity.{IsValid, short_bitmap}

-- The allocator as the search leaves it.
abbrev pub searched : ℕ → BitmapAllocator → BitmapAllocator
searched page_count a = record a {
  first_free_bitmap_byte = (search page_count a).first_free_bitmap_byte;
}

abbrev pub page_address : BitmapAllocator → ℕ → ℕ
page_address a page = (a.begin + page * page_size) % word_mod

-- The branches of `alloc`.
module _ (page_count : ℕ) (a : BitmapAllocator) (pos : 0 < page_count) where
  alloc-few :
      (search page_count a).found < page_count → alloc page_count a ≡ (null, searched page_count a)
  unfolding alloc clamp_found
  alloc-few h = ground arith

  alloc-at :
      page_count ≤ (search page_count a).found
      → alloc page_count a ≡ (
          if ltb
            (clamp_found page_count a.pages_count
              (search page_count a).found
              (search page_count a).start_page)
            page_count
          then (null, searched page_count a)
          else (
            page_address a (search page_count a).start_page,
            mark_pages (search page_count a).start_page page_count true (searched page_count a),
          ))
  unfolding alloc
  alloc-at h = ground arith

if_not {ℓ} : {A : Type ℓ} (b : Bool) (x y : A) → (if not b then x else y) ≡ (if b then y else x)
if_not true x y = refl
if_not false x y = refl

clamp-in :
    (page_count pages found s : ℕ)
    → s < pages
    → pages ≤ 2 ^ 20
    → page_count ≤ found
    → ltb (clamp_found page_count pages found s) page_count ≡ not (ltb (s + page_count) pages)
unfolding clamp_found
clamp-in page_count pages found s lt small h =
    let e : (pages + 2 * word_mod - s - 1) % word_mod ≡ pages - s - 1 = omega arith in
    rw e (ground arith)

outcome-some :
    (page_count found start s : ℕ)
    → (if leb page_count found then some start else none) ≡ some s
    → (page_count ≤ found) × (start ≡ s)
outcome-some page_count found start s h = ground arith

outcome-none :
    (page_count found start : ℕ)
    → (if leb page_count found then some start else none) ≡ none
    → found < page_count
outcome-none page_count found start h = ground arith

module _ {a : BitmapAllocator} (v : IsValid a) (page_count : ℕ) (pos : 0 < page_count) where
  found_eq :
      (if leb page_count (search page_count a).found
        then some (search page_count a).start_page
        else none)
      ≡ first_fit page_count 0 0 (bits a.bitmap)
  found_eq = search-first_fit page_count a v.full pos v.bytes (short_bitmap v)

  -- A run starts on a page of the allocator: the last page is clear.
  start-lt : (s : ℕ) → first_fit page_count 0 0 (bits a.bitmap) ≡ some s → s < a.pages_count
  start-lt s e = from (first_fit-free page_count (bits a.bitmap) s pos e)
    where
      from :
          AllIn false s page_count (bits a.bitmap)
            × ((s ≡ 0) ⊎ AllIn true (s - 1) 1 (bits a.bitmap))
          → s < a.pages_count
      from (h, inl z) =
          let k = v.spare in
          omega (arith, AllIn-lt false s page_count (bits a.bitmap) pos h, length-bits a.bitmap)
      from (h, inr p) =
          let k = v.spare in
          let c = v.covers in
          omega (
            arith,
            AllIn-lt false s page_count (bits a.bitmap) pos h,
            length-bits a.bitmap,
            AllIn-apart (s - 1) (a.pages_count - 1) (8 * length a.bitmap - (a.pages_count - 1))
                (bits a.bitmap) p v.last_clear,
          )

  alloc-some :
      (s : ℕ)
      → first_fit page_count 0 0 (bits a.bitmap) ≡ some s
      → alloc page_count a ≡ (
          if ltb (s + page_count) a.pages_count
          then (page_address a s, mark_pages s page_count true (searched page_count a))
          else (null, searched page_count a))
  alloc-some s e =
      let (enough, at) =
        outcome-some page_count (search page_count a).found (search page_count a).start_page s
          (found_eq ∙ e) in
      rw
        (
          alloc-at page_count a pos enough,
          at,
          clamp-in page_count a.pages_count (search page_count a).found s (start-lt s e) v.small
              enough,
        )
        (if_not (ltb (s + page_count) a.pages_count) _ _)

  alloc-none :
      first_fit page_count 0 0 (bits a.bitmap) ≡ none
      → alloc page_count a ≡ (null, searched page_count a)
  alloc-none e = alloc-few page_count a pos (
      outcome-none page_count (search page_count a).found (search page_count a).start_page
        (found_eq ∙ e))

  -- The result when the first fit starts at page `s`.
  abbrev granted : ℕ → ℕ × BitmapAllocator
  granted s = (page_address a s, mark_pages s page_count true (searched page_count a))

  abbrev pub Grants : ℕ → Type 0
  Grants s =
      (first_fit page_count 0 0 (bits a.bitmap) ≡ some s)
      × (s + page_count < a.pages_count)
      × (alloc page_count a ≡ granted s)

  abbrev pub Refuses : Type 0
  Refuses =
      (alloc page_count a ≡ (null, searched page_count a))
      × ((s : ℕ)
          → first_fit page_count 0 0 (bits a.bitmap) ≡ some s
          → a.pages_count ≤ s + page_count)

  pub alloc-cases : ((s : ℕ) × Grants s) ⊎ Refuses
  alloc-cases = elim (Option-cases (first_fit page_count 0 0 (bits a.bitmap))) [
    | inl e ↦ inr (alloc-none e, λ s e'. cc)
    | inr (s, e) ↦ elim (dec_lt (s + page_count) a.pages_count) [
      | yes lt ↦ inl (
        s,
        (
          e,
          lt,
          alloc-some s e
              ∙ (let l : ltb (s + page_count) a.pages_count ≡ true = ground arith in rw l),
        ),
      )
      | no ge ↦ inr (
        alloc-some s e
            ∙ (let l : ltb (s + page_count) a.pages_count ≡ false = ground arith in rw l),
        λ s' e'. let k : some s ≡ some s' = sym e ∙ e' in ground arith,
      )
    ]
  ]
