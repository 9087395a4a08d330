-- ===== src/BitmapAllocator/FirstFit.antt =====
-- The search of alloc in core/bitmap_allocator.cpp over the whole bitmap.
use juice_os_kernel.Prelude.{
  take-add, ℕ, zero, suc, ◌+◌, ◌-◌, ◌*◌, ◌≤◌, ◌<◌, ◌≡◌, refl, sym, ap, ◌∙◌, ◌≢◌, ◌⊎◌, inl, inr,
  Bool, true, false, Option, none, some, List, [], ◌∷◌, ◌++◌, arith, leb, ◌==◌, if◌then◌else◌,
  dec_le, ℕ_discrete, length, take, drop, replicate, take-append-drop, length-take, length-drop,
  bits_of, bits, IsBytes, bits-append, IsBytes-drop,
}
use juice_os_kernel.BitmapAllocator.Defs.{
  BitmapAllocator, Scan, visit, scan_bytes, search, scan_byte, no_page,
}
use juice_os_kernel.BitmapAllocator.Runs.{first_fit, resume, resume-ones, first_fit-ones}
use juice_os_kernel.BitmapAllocator.Scanning.{IsOpen, Scanned, scan_byte-Scanned}
use juice_os_kernel.BitmapAllocator.FirstFree.{
  AllFull, AllFull-append, bits-AllFull, Recorded, scan_bytes-Recorded, FullBelow, full_bits,
}

-- What a search has found, in the form of `first_fit`.
abbrev pub outcome : (page_count : ℕ) → Scan → Option ℕ
outcome page_count s = if leb page_count s.found then some s.start_page else none

abbrev pub Good : (page_count idx : ℕ) → Scan → Type 0
Good page_count idx s = (page_count ≤ s.found) ⊎ IsOpen idx s.found s.start_page

module _ (page_count : ℕ) (pos : 0 < page_count) where
  visit-full :
      (i : ℕ) (s : Scan)
      → ((visit page_count i 0xff s).found ≡ 0) × ((visit page_count i 0xff s).start_page ≡ no_page)
  unfolding visit
  visit-full i s = (refl, refl)

  visit-part :
      (i cur : ℕ) (s : Scan)
      → cur ≢ 0xff
      → ((visit page_count i cur s).found, (visit page_count i cur s).start_page)
        ≡ scan_byte 9 page_count i cur 0 s.found s.start_page
  unfolding visit
  visit-part i cur s ne = let e : (cur == 0xff) ≡ false = ground arith in rw e

  of_Scanned :
      (i cur : ℕ) (s : Scan) (rest : List Bool) (r : ℕ × ℕ)
      → ((visit page_count i cur s).found, (visit page_count i cur s).start_page) ≡ r
      → Scanned page_count pos i 0 cur s.found s.start_page rest r
      → (resume page_count (i * 8) s.found s.start_page (bits_of 8 cur ++ rest)
          ≡ resume page_count
              (i * 8 + 8)
              (visit page_count i cur s).found
              (visit page_count i cur s).start_page
              rest)
        × Good page_count (i * 8 + 8) (visit page_count i cur s)
  unfolding Scanned
  of_Scanned i cur s rest r e h =
      let z : i * 8 + 0 ≡ i * 8 = omega arith in let h' = rw (← e) at h in (rw z at (h'.0), h'.1)

  visit-resume :
      (i cur : ℕ) (s : Scan) (rest : List Bool)
      → s.found < page_count
      → cur < 256
      → i * 8 + 8 < no_page
      → IsOpen (i * 8) s.found s.start_page
      → (resume page_count (i * 8) s.found s.start_page (bits_of 8 cur ++ rest)
          ≡ resume page_count
              (i * 8 + 8)
              (visit page_count i cur s).found
              (visit page_count i cur s).start_page
              rest)
        × Good page_count (i * 8 + 8) (visit page_count i cur s)
  visit-resume i cur s rest few hc hi o = elim (ℕ_discrete cur 0xff) [
    | yes e ↦
        let (f, p) = visit-full i s in
        rw (e, f, p, full_bits)
          (
            resume-ones page_count pos 8 (i * 8) s.found s.start_page rest few (omega arith),
            inr (inl (refl, refl)),
          )
    | no ne ↦
        let z : i * 8 + 0 ≡ i * 8 = omega arith in
        let scanned =
          scan_byte-Scanned page_count pos 9 i cur 0 s.found s.start_page rest (omega arith)
            (omega arith) hc hc hi (rw z o) in
        of_Scanned i cur s rest _ (visit-part i cur s ne) scanned
  ]

  outcome-many :
      (i : ℕ) (s : Scan) (bs : List Bool)
      → page_count ≤ s.found
      → outcome page_count s ≡ resume page_count (i * 8) s.found s.start_page bs
  unfolding resume
  outcome-many i s bs h = ground arith

  outcome-nil :
      (i : ℕ) (s : Scan) → outcome page_count s ≡ resume page_count (i * 8) s.found s.start_page []
  unfolding resume first_fit
  outcome-nil i s = ground arith

  still-IsOpen :
      (idx : ℕ) (s : Scan)
      → ¬ (page_count ≤ s.found)
      → Good page_count idx s
      → IsOpen idx s.found s.start_page
  still-IsOpen idx s few (inl h) = absurd (few h)
  still-IsOpen idx s few (inr o) = o

  scan_bytes-outcome :
      (cs : List ℕ) (i : ℕ) (s : Scan)
      → IsBytes cs
      → (i + length cs) * 8 < no_page
      → Good page_count (i * 8) s
      → outcome page_count (scan_bytes page_count cs i s)
        ≡ resume page_count (i * 8) s.found s.start_page (bits cs)
  unfolding scan_bytes bits
  scan_bytes-outcome [] i s h hi g = outcome-nil i s
  scan_bytes-outcome (c ∷ cs) i s h hi g = elim (dec_le page_count s.found) [
    | yes enough ↦
        let l : leb page_count s.found ≡ true = ground arith in
        rw l (outcome-many i s (bits_of 8 c ++ bits cs) enough)
    | no few ↦
        let l : leb page_count s.found ≡ false = ground arith in
        let (step, g') =
          visit-resume i c s (bits cs) (omega arith) h.0 (omega arith)
            (still-IsOpen (i * 8) s few g) in
        let d : i * 8 + 8 ≡ (i + 1) * 8 = omega arith in
        rw l (
          scan_bytes-outcome cs (i + 1) (visit page_count i c s) h.1 (omega arith) (rw d at g')
          ∙ rw (← d) (sym step))
  ]

resume-start :
    (page_count : ℕ)
    → 0 < page_count
    → (idx : ℕ) (bs : List Bool)
    → resume page_count idx 0 no_page bs ≡ first_fit page_count idx 0 bs
unfolding resume
resume-start page_count pos idx bs = ground arith

first_fit-skip :
    (page_count : ℕ)
    → 0 < page_count
    → (t : ℕ) (rest : List Bool)
    → first_fit page_count 0 0 (replicate t true ++ rest) ≡ first_fit page_count t 0 rest
first_fit-skip page_count pos zero rest = refl
first_fit-skip page_count pos (suc t) rest =
    let e : 0 + suc t ≡ suc t = omega arith in
    first_fit-ones page_count pos (suc t) 0 0 rest (omega arith) pos
    ∙ ap (λ k. first_fit page_count k 0 rest) e

module _ (page_count : ℕ) (a : BitmapAllocator)
    (full : FullBelow a.first_free_bitmap_byte a.bitmap) where
  pub search-FullBelow : FullBelow (search page_count a).first_free_bitmap_byte a.bitmap
  unfolding search
  search-FullBelow = of_recorded _ (scan_bytes-Recorded page_count (drop n cs) n start refl)
    where
      n : ℕ
      n = a.first_free_bitmap_byte

      cs : List ℕ
      cs = a.bitmap

      start : Scan
      start = record {
        found = 0;
        start_page = no_page;
        has_found_first_free_byte = false;
        first_free_bitmap_byte = n;
      }

      of_recorded : (after : ℕ) → Recorded page_count (drop n cs) n n after → FullBelow after cs
      of_recorded after r = unfold Recorded in split r
        where
          split :
              (after ≡ n)
                ⊎ ((k : ℕ) × (after ≡ n + k)
                    × (k ≤ length (drop n cs))
                    × AllFull (take k (drop n cs)))
              → FullBelow after cs
          split (inl e) = rw e full
          split (inr (k, e, l, f)) = (
            omega (arith, length-drop n cs),
            rw (e, take-add n k cs) (AllFull-append (take n cs) (take k (drop n cs)) full.1 f),
          )

  -- Where the bytes below `m_firstFreeBitmapByte` are full, the search over the bytes from there on
  -- finds what a first-fit search bit by bit of the whole bitmap finds.
  pub search-first_fit :
      0 < page_count
      → IsBytes a.bitmap
      → length a.bitmap * 8 < no_page
      → outcome page_count (search page_count a) ≡ first_fit page_count 0 0 (bits a.bitmap)
  unfolding search
  search-first_fit pos h lt =
      let n = a.first_free_bitmap_byte in
      let cs = a.bitmap in
      let le : length (drop n cs) ≡ length cs - n = length-drop n cs in
      let front : bits (take n cs) ≡ replicate (n * 8) true =
        bits-AllFull (take n cs) full.1
        ∙ ap (λ k. replicate k true) (omega (arith, length-take n cs)) in
      let whole : bits cs ≡ replicate (n * 8) true ++ bits (drop n cs) =
        ap bits (sym (take-append-drop n cs))
        ∙ bits-append (take n cs) (drop n cs)
        ∙ ap (λ xs. xs ++ bits (drop n cs)) front in
      scan_bytes-outcome page_count pos (drop n cs) n
        (record {
          found = 0;
          start_page = no_page;
          has_found_first_free_byte = false;
          first_free_bitmap_byte = n;
        })
        (IsBytes-drop n cs h) (omega arith) (inr (inl (refl, refl)))
      ∙ resume-start page_count pos (n * 8) (bits (drop n cs))
      ∙ sym (
          ap (first_fit page_count 0 0) whole
          ∙ first_fit-skip page_count pos (n * 8) (bits (drop n cs)))
