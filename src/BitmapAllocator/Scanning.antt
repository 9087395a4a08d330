-- ===== src/BitmapAllocator/Scanning.antt =====
-- The search of alloc in core/bitmap_allocator.cpp, within a byte, against a search bit by bit.
use juice_os_kernel.Prelude.{
  ℕ, zero, suc, ◌+◌, ◌-◌, ◌*◌, ◌/◌, ◌%◌, ◌^◌, ◌≤◌, ◌<◌, ◌≡◌, refl, ◌∙◌, ◌≢◌, ◌⊎◌, inl, inr, Bool,
  true, false, List, ◌++◌, append_assoc, arith, ◌==◌, if◌then◌else◌, dec_lt, dec_le, ℕ_discrete,
  replicate, bits_of,
}
use juice_os_kernel.BitmapAllocator.Runs.{resume, resume-ones, resume-zeros}
use juice_os_kernel.BitmapAllocator.Defs.{
  trailing_ones, trailing_zeros, scan_byte, no_page, word_mod,
}
use juice_os_kernel.BitmapAllocator.ByteTables.{quotient-lt, ones_split, zeros_split, bits_of-zero}

-- `found` and `startPage` describe the run of clear bits that is open at `idx`.
abbrev pub IsOpen : (idx found start_page : ℕ) → Type 0
IsOpen idx found start_page =
    ((found ≡ 0) × (start_page ≡ no_page)) ⊎ ((0 < found) × (start_page + found ≡ idx))

-- The `startPage` of an open run that the next clear bit joins.
joined : (i bit start_page : ℕ) → ℕ
joined i bit start_page = if start_page == no_page then (i * 8 + bit) % word_mod else start_page

joined_lem :
    (i bit found start_page : ℕ)
    → bit < 8
    → i * 8 + 8 < no_page
    → IsOpen (i * 8 + bit) found start_page
    → (joined i bit start_page + found ≡ i * 8 + bit)
      × (0 < found → start_page ≡ joined i bit start_page)
unfolding joined
joined_lem i bit found start_page h lt (inl (e, k)) = (ground arith, λ p. absurd (omega arith))
joined_lem i bit found start_page h lt (inr (p, e)) = (ground arith, λ _. ground arith)

-- The five cases of a round.
module _ (fuel page_count i cur bit found start_page : ℕ) where
  round : ℕ × ℕ
  round = scan_byte (suc fuel) page_count i cur bit found start_page

  round-full : 8 ≤ bit → round ≡ (found, start_page)
  unfolding round scan_byte
  round-full h = ground arith

  round-stop : bit < 8 → 0 < trailing_ones 8 cur → page_count ≤ found → round ≡ (found, start_page)
  unfolding round scan_byte
  round-stop h o e = ground arith

  round-skip :
      bit < 8
      → 0 < trailing_ones 8 cur
      → found < page_count
      → round
        ≡ scan_byte fuel page_count i
            (cur / 2 ^ trailing_ones 8 cur)
            (bit + trailing_ones 8 cur)
            0
            no_page
  unfolding round scan_byte
  round-skip h o e = ground arith

  round-rest :
      bit < 8
      → trailing_ones 8 cur ≡ 0
      → cur ≡ 0
      → round ≡ (found + (8 - bit), joined i bit start_page)
  unfolding round scan_byte joined
  round-rest h o e = ground arith

  round-count :
      bit < 8
      → trailing_ones 8 cur ≡ 0
      → cur ≢ 0
      → round
        ≡ scan_byte fuel page_count i
            (cur / 2 ^ trailing_zeros 8 cur)
            (bit + trailing_zeros 8 cur)
            (found + trailing_zeros 8 cur)
            (joined i bit start_page)
  unfolding round scan_byte joined
  round-count h o e = ground arith

module _ (page_count : ℕ) (pos : 0 < page_count) where
  unfoldable pub Scanned : (i bit cur found start_page : ℕ) → List Bool → ℕ × ℕ → Type 0
  Scanned i bit cur found start_page rest (found', start_page') =
      (resume page_count (i * 8 + bit) found start_page (bits_of (8 - bit) cur ++ rest)
        ≡ resume page_count (i * 8 + 8) found' start_page' rest)
      × ((page_count ≤ found') ⊎ IsOpen (i * 8 + 8) found' start_page')

  -- A byte of which nothing is left, or the rest of which is clear.
  Scanned-full :
      (i bit cur found start_page : ℕ) (rest : List Bool)
      → bit ≡ 8
      → IsOpen (i * 8 + bit) found start_page
      → Scanned i bit cur found start_page rest (found, start_page)
  unfolding Scanned bits_of
  Scanned-full i bit cur found start_page rest e o = rw e (refl, inr (rw e at o))

  Scanned-stop :
      (i bit cur found start_page : ℕ) (rest : List Bool)
      → page_count ≤ found
      → Scanned i bit cur found start_page rest (found, start_page)
  unfolding Scanned resume
  Scanned-stop i bit cur found start_page rest h = (ground arith, inl h)

  Scanned-rest :
      (i bit cur found start_page : ℕ) (rest : List Bool)
      → bit < 8
      → cur ≡ 0
      → i * 8 + 8 < no_page
      → IsOpen (i * 8 + bit) found start_page
      → Scanned i bit cur found start_page rest (found + (8 - bit), joined i bit start_page)
  unfolding Scanned
  Scanned-rest i bit cur found start_page rest h e hi o =
      let (j, k) = joined_lem i bit found start_page h hi o in
      let d : i * 8 + bit + (8 - bit) ≡ i * 8 + 8 = omega arith in
      (
        rw (e, bits_of-zero)
            (resume-zeros page_count pos (8 - bit) (i * 8 + bit) found start_page
                (joined i bit start_page) rest j k
              ∙ rw d),
        inr (inr (omega arith, omega arith)),
      )

  Scanned-skip :
      (i bit cur found start_page : ℕ) (rest : List Bool) (t : ℕ) (r : ℕ × ℕ)
      → found < page_count
      → 0 < t
      → t ≤ 8 - bit
      → bit < 8
      → bits_of (8 - bit) cur ≡ replicate t true ++ bits_of (8 - (bit + t)) (cur / 2 ^ t)
      → Scanned i (bit + t) (cur / 2 ^ t) 0 no_page rest r
      → Scanned i bit cur found start_page rest r
  unfolding Scanned
  Scanned-skip i bit cur found start_page rest t r h p le lt e (s, o) =
      let d : i * 8 + bit + t ≡ i * 8 + (bit + t) = omega arith in
      let later = bits_of (8 - (bit + t)) (cur / 2 ^ t) ++ rest in
      let step = resume-ones page_count pos t (i * 8 + bit) found start_page later h p in
      (rw (e, append_assoc) (step ∙ rw d s), o)

  Scanned-count :
      (i bit cur found start_page : ℕ) (rest : List Bool) (t : ℕ) (r : ℕ × ℕ)
      → t ≤ 8 - bit
      → bit < 8
      → i * 8 + 8 < no_page
      → IsOpen (i * 8 + bit) found start_page
      → bits_of (8 - bit) cur ≡ replicate t false ++ bits_of (8 - (bit + t)) (cur / 2 ^ t)
      → Scanned i (bit + t) (cur / 2 ^ t) (found + t) (joined i bit start_page) rest r
      → Scanned i bit cur found start_page rest r
  unfolding Scanned
  Scanned-count i bit cur found start_page rest t r le lt hi o e (s, p) =
      let (j, k) = joined_lem i bit found start_page lt hi o in
      let d : i * 8 + bit + t ≡ i * 8 + (bit + t) = omega arith in
      let later = bits_of (8 - (bit + t)) (cur / 2 ^ t) ++ rest in
      let step =
        resume-zeros page_count pos t (i * 8 + bit) found start_page (joined i bit start_page) later
          j k in
      (rw (e, append_assoc) (step ∙ rw d s), p)

  scan_more :
      (fuel i cur bit found start_page : ℕ) (rest : List Bool)
      → bit < 8
      → 8 - bit < suc fuel
      → cur < 256
      → cur < 2 ^ (8 - bit)
      → i * 8 + 8 < no_page
      → IsOpen (i * 8 + bit) found start_page
      → ((cur' bit' found' start' : ℕ)
          → bit' ≤ 8
          → 8 - bit' < fuel
          → cur' < 256
          → cur' < 2 ^ (8 - bit')
          → IsOpen (i * 8 + bit') found' start'
          → Scanned i bit' cur' found' start' rest
              (scan_byte fuel page_count i cur' bit' found' start'))
      → Scanned i bit cur found start_page rest (round fuel page_count i cur bit found start_page)
  scan_more fuel i cur bit found start_page rest hb hf hc hm hi o again =
      let t = trailing_ones 8 cur in
      let z = trailing_zeros 8 cur in
      elim (dec_lt 0 t) [
        | yes p ↦ elim (dec_le page_count found) [
          | yes enough ↦
              rw (round-stop fuel page_count i cur bit found start_page hb p enough)
                (Scanned-stop i bit cur found start_page rest enough)
          | no few ↦
              let (le, lt, e) = ones_split (8 - bit) cur (omega arith) hc hm in
              let d : 8 - bit - t ≡ 8 - (bit + t) = omega arith in
              rw (round-skip fuel page_count i cur bit found start_page hb p (omega arith)) (
                Scanned-skip i bit cur found start_page rest t _ (omega arith) p le hb (rw d at e) (
                  again (cur / 2 ^ t) (bit + t) 0 no_page (omega arith) (omega arith)
                    (quotient-lt cur (2 ^ t) hc) (rw d at lt) (inl (refl, refl))))
        ]
        | no p ↦ elim (ℕ_discrete cur 0) [
          | yes e ↦
              rw (round-rest fuel page_count i cur bit found start_page hb (omega arith) e)
                (Scanned-rest i bit cur found start_page rest hb e hi o)
          | no ne ↦
              let (p', split) = zeros_split (8 - bit) cur (omega arith) hc hm (omega arith) ne in
              let (le, lt, e) = split in
              let d : 8 - bit - z ≡ 8 - (bit + z) = omega arith in
              let (j, _) = joined_lem i bit found start_page hb hi o in
              rw (round-count fuel page_count i cur bit found start_page hb (omega arith) ne) (
                Scanned-count i bit cur found start_page rest z _ le hb hi o (rw d at e) (
                  again (cur / 2 ^ z) (bit + z) (found + z) (joined i bit start_page) (omega arith)
                    (omega arith) (quotient-lt cur (2 ^ z) hc) (rw d at lt)
                    (inr (omega arith, omega arith))))
        ]
      ]

  pub scan_byte-Scanned :
      (fuel i cur bit found start_page : ℕ) (rest : List Bool)
      → bit ≤ 8
      → 8 - bit < fuel
      → cur < 256
      → cur < 2 ^ (8 - bit)
      → i * 8 + 8 < no_page
      → IsOpen (i * 8 + bit) found start_page
      → Scanned i bit cur found start_page rest
          (scan_byte fuel page_count i cur bit found start_page)
  unfolding round
  scan_byte-Scanned zero i cur bit found start_page rest hb hf hc hm hi o = absurd (omega arith)
  scan_byte-Scanned (suc fuel) i cur bit found start_page rest hb hf hc hm hi o =
      elim (dec_lt bit 8) [
        | yes more ↦
            scan_more fuel i cur bit found start_page rest more hf hc hm hi o
              (λ cur' bit' found' start' b f c m op.
                scan_byte-Scanned fuel i cur' bit' found' start' rest b f c m hi op)
        | no full ↦
            rw (round-full fuel page_count i cur bit found start_page (omega arith))
              (Scanned-full i bit cur found start_page rest (omega arith) o)
      ]
