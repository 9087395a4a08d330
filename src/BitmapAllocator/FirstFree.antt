-- ===== src/BitmapAllocator/FirstFree.antt =====
-- The byte that the search of alloc in core/bitmap_allocator.cpp records as the first with a clear bit.
use juice_os_kernel.Prelude.{
  ℕ, suc, ◌+◌, ◌*◌, ◌≤◌, ◌≡◌, refl, subst, ◌≢◌, ◌⊎◌, inl, inr, true, false, List, [], ◌∷◌, ◌++◌,
  arith, leb, dec_le, ℕ_discrete, length, take, replicate, bits_of, bits,
}
use juice_os_kernel.BitmapAllocator.Defs.{Scan, visit, scan_bytes}

pub full_bits : bits_of 8 0xff ≡ replicate 8 true
unfolding bits_of
full_bits = refl

-- Every byte has all its bits set.
abbrev pub AllFull : List ℕ → Type 0
AllFull [] = Unit {0}
AllFull (c ∷ cs) = (c ≡ 0xff) × AllFull cs

pub AllFull-append : (cs ds : List ℕ) → AllFull cs → AllFull ds → AllFull (cs ++ ds)
AllFull-append [] ds h k = k
AllFull-append (c ∷ cs) ds h k = (h.0, AllFull-append cs ds h.1 k)

pub bits-AllFull : (cs : List ℕ) → AllFull cs → bits cs ≡ replicate (8 * length cs) true
unfolding bits
bits-AllFull [] h = refl
bits-AllFull (c ∷ cs) (e, h) =
    let d : 8 * suc (length cs) ≡ suc (suc (suc (suc (suc (suc (suc (suc (8 * length cs)))))))) =
      omega arith in
    rw (d, e, bits-AllFull cs h, full_bits)

-- The byte that the search records is the first that is not full.
module _ (page_count : ℕ) where
  scan_bytes-seen :
      (cs : List ℕ) (i : ℕ) (s : Scan)
      → s.has_found_first_free_byte ≡ true
      → (scan_bytes page_count cs i s).first_free_bitmap_byte ≡ s.first_free_bitmap_byte
  unfolding scan_bytes
  scan_bytes-seen [] i s h = refl
  scan_bytes-seen (c ∷ cs) i s h =
      let (a, b) = visit-seen i c s h in
      ground (arith, scan_bytes-seen cs (i + 1) (visit page_count i c s) a)
    where
      visit-seen :
          (i c : ℕ) (s : Scan)
          → s.has_found_first_free_byte ≡ true
          → ((visit page_count i c s).has_found_first_free_byte ≡ true)
            × ((visit page_count i c s).first_free_bitmap_byte ≡ s.first_free_bitmap_byte)
      visit-seen i c s h = unfold visit in ground arith

  -- What the search leaves in `m_firstFreeBitmapByte`, over the bytes from `i` on.
  unfoldable pub Recorded : List ℕ → (i before after : ℕ) → Type 0
  Recorded cs i before after =
      (after ≡ before) ⊎ ((k : ℕ) × (after ≡ i + k) × (k ≤ length cs) × AllFull (take k cs))

  Recorded-cons :
      (c : ℕ) (cs : List ℕ) (i before after : ℕ)
      → c ≡ 0xff
      → Recorded cs (i + 1) before after
      → Recorded (c ∷ cs) i before after
  unfolding Recorded
  Recorded-cons c cs i before after e (inl h) = inl h
  Recorded-cons c cs i before after e (inr (k, h, l, f)) =
      inr (suc k, omega arith, omega arith, (e, f))

  pub scan_bytes-Recorded :
      (cs : List ℕ) (i : ℕ) (s : Scan)
      → s.has_found_first_free_byte ≡ false
      → Recorded cs i s.first_free_bitmap_byte (scan_bytes page_count cs i s).first_free_bitmap_byte
  unfolding scan_bytes
  scan_bytes-Recorded [] i s h = unfold Recorded in inl refl
  scan_bytes-Recorded (c ∷ cs) i s h = elim (dec_le page_count s.found) [
    | yes enough ↦ unfold Recorded in inl (ground arith)
    | no few ↦ elim (ℕ_discrete c 0xff) [
      | yes e ↦
          let l : leb page_count s.found ≡ false = ground arith in
          let (a, b) = visit-closed i c s e h in
          rw l (
            Recorded-cons c cs i _ _ e (
              subst
                (λ n.
                  Recorded cs (i + 1) n
                    (scan_bytes page_count cs (i + 1)
                      (visit page_count i c s)).first_free_bitmap_byte)
                b (scan_bytes-Recorded cs (i + 1) (visit page_count i c s) a)))
      | no ne ↦
          let l : leb page_count s.found ≡ false = ground arith in
          let (a, b) = visit-opens i c s ne h in
          let kept = scan_bytes-seen cs (i + 1) (visit page_count i c s) a in
          rw (l, kept, b) (unfold Recorded in inr (0, omega arith, omega arith, tt))
    ]
  ]
    where
      visit-closed :
          (i c : ℕ) (s : Scan)
          → c ≡ 0xff
          → s.has_found_first_free_byte ≡ false
          → ((visit page_count i c s).has_found_first_free_byte ≡ false)
            × ((visit page_count i c s).first_free_bitmap_byte ≡ s.first_free_bitmap_byte)
      visit-closed i c s e h = unfold visit in ground arith

      visit-opens :
          (i c : ℕ) (s : Scan)
          → c ≢ 0xff
          → s.has_found_first_free_byte ≡ false
          → ((visit page_count i c s).has_found_first_free_byte ≡ true)
            × ((visit page_count i c s).first_free_bitmap_byte ≡ i)
      visit-opens i c s e h = unfold visit in ground arith

-- All bytes below `m_firstFreeBitmapByte` are full, and it lies within the bitmap or at its end.
abbrev pub FullBelow : ℕ → List ℕ → Type 0
FullBelow first_free cs = (first_free ≤ length cs) × AllFull (take first_free cs)
