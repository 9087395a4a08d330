-- ===== src/BitmapAllocator/Marking.antt =====
-- mark_pages of core/bitmap_allocator.cpp against a range of a list of bits.
use juice_os_kernel.Prelude.{
  ℕ, zero, suc, ◌+◌, ◌-◌, ◌*◌, ◌/◌, ◌%◌, ◌<◌, min, ◌≡◌, refl, sym, ap, ◌∙◌, Bool, true, false, ◌&&◌,
  List, [], ◌∷◌, ◌++◌, arith, ltb, ◌==◌, dec_lt, ltb→lt, length, set, take, drop, take-append-drop,
  length-take, length-drop, all_below, all_below-at, bits_of, bits, bits_eq, bits_eq-eq,
  length-bits_of, IsBytes, bits-append, length-bits, IsBytes-append, IsBytes-take, IsBytes-drop,
}
use juice_os_kernel.BitmapAllocator.Defs.{
  BitmapAllocator, mark_bit, count_page, mark_byte, mark_bytes, mark_pages, Marked, word_mod,
}
use juice_os_kernel.BitmapAllocator.Fill.{
  fill, fill-append, fill-behind, fill-nil, fill-past, fill-set, fill-zero,
}

abbrev mark_ok : Bool → ℕ → ℕ → Bool
mark_ok b i c =
    ltb (mark_bit b i c) 256 && bits_eq (bits_of 8 (mark_bit b i c)) (set (bits_of 8 c) i b)

mark_table : all_below 8 (λ i. all_below 256 (λ c. mark_ok true i c && mark_ok false i c)) ≡ true
unfolding all_below bits_of bits_eq mark_bit
mark_table = refl

mark_bit_ok : (b : Bool) (i c : ℕ) → i < 8 → c < 256 → mark_ok b i c ≡ true
mark_bit_ok b i c hi hc = pick b (
    all_below-at (λ c. mark_ok true i c && mark_ok false i c) c 256 hc
      (all_below-at (λ i. all_below 256 (λ c. mark_ok true i c && mark_ok false i c)) i 8 hi
        mark_table))
  where
    pick : (b : Bool) → (mark_ok true i c && mark_ok false i c) ≡ true → mark_ok b i c ≡ true
    pick true h = ground arith
    pick false h = ground arith

pub mark_bit-lt : (b : Bool) (i c : ℕ) → i < 8 → c < 256 → mark_bit b i c < 256
mark_bit-lt b i c hi hc = ltb→lt _ _ (ground (arith, mark_bit_ok b i c))

pub bits-mark_bit :
    (b : Bool) (i c : ℕ) → i < 8 → c < 256 → bits_of 8 (mark_bit b i c) ≡ set (bits_of 8 c) i b
bits-mark_bit b i c hi hc = bits_eq-eq _ _ (ground (arith, mark_bit_ok b i c))

-- `m_usedPages` after `n` pages have been counted.
unfoldable pub advance : Bool → (used n : ℕ) → ℕ
advance true used n = (used + n) % word_mod
advance false used n = (used + n * (word_mod - 1)) % word_mod

advance-zero : (b : Bool) (used : ℕ) → used < word_mod → advance b used 0 ≡ used
unfolding advance
advance-zero true used h = omega arith
advance-zero false used h = omega arith

advance-suc : (b : Bool) (used n : ℕ) → advance b (count_page b used) n ≡ advance b used (suc n)
unfolding advance count_page
advance-suc true used n = omega arith
advance-suc false used n = omega arith

advance-advance :
    (b : Bool) (used m n : ℕ) → advance b (advance b used m) n ≡ advance b used (m + n)
unfolding advance
advance-advance true used m n = omega arith
advance-advance false used m n = omega arith

advance-lt : (b : Bool) (used n : ℕ) → advance b used n < word_mod
unfolding advance
advance-lt true used n = omega arith
advance-lt false used n = omega arith

count_page-lt : (b : Bool) (used : ℕ) → count_page b used < word_mod
unfolding count_page
count_page-lt true used = omega arith
count_page-lt false used = omega arith

abbrev MarkedByte : (b : Bool) (rounds i cur count used : ℕ) → Marked → Type 0
MarkedByte b rounds i cur count used m =
    (bits_of 8 m.cur ≡ fill b i count (bits_of 8 cur))
    × (m.cur < 256)
    × (m.count ≡ count - rounds)
    × (m.used_pages ≡ advance b used (min count rounds))

min-zero : (rounds : ℕ) → min 0 (suc rounds) ≡ 0
min-zero rounds = omega arith

mark_byte-fill :
    (rounds : ℕ) (b : Bool) (i cur count used : ℕ)
    → i + rounds ≡ 8
    → cur < 256
    → used < word_mod
    → MarkedByte b rounds i cur count used (mark_byte rounds b i cur count used)
unfolding mark_byte
mark_byte-fill zero b i cur count used h c u =
    let e : min count 0 ≡ 0 = omega arith in
    (
      sym (fill-past b i count (bits_of 8 cur) (omega (arith, length-bits_of 8 cur))),
      c,
      omega arith,
      rw (e, advance-zero b used u),
    )
mark_byte-fill (suc rounds) b i cur zero used h c u = (
  sym (fill-zero b i (bits_of 8 cur)),
  c,
  omega arith,
  rw (min-zero rounds) (sym (advance-zero b used u)),
)
mark_byte-fill (suc rounds) b i cur (suc count) used h c u =
    let e : suc count - 1 ≡ count = omega arith in
    let k : min (suc count) (suc rounds) ≡ suc (min count rounds) = omega arith in
    let j : i + 1 ≡ suc i = omega arith in
    let (p, q, r, s) =
      mark_byte-fill rounds b (suc i) (mark_bit b i cur) count (count_page b used) (omega arith)
        (mark_bit-lt b i cur (omega arith) c) (count_page-lt b used) in
    let ne : (suc count == 0) ≡ false = ground arith in
    rw (ne, e, j)
      (
        p
            ∙ ap (fill b (suc i) count) (bits-mark_bit b i cur (omega arith) c)
            ∙ fill-set b i count (bits_of 8 cur),
        q,
        omega arith,
        s ∙ rw (k, advance-suc b used (min count rounds)),
      )

mark_bytes-fill :
    (b : Bool) (cs : List ℕ) (start count used : ℕ)
    → IsBytes cs
    → start < 8
    → used < word_mod
    → (bits (mark_bytes b cs start count used).0 ≡ fill b start count (bits cs))
      × IsBytes (mark_bytes b cs start count used).0
      × ((mark_bytes b cs start count used).1 ≡ advance b used (min count (8 * length cs - start)))
unfolding mark_bytes bits
mark_bytes-fill b [] start count used h lt u =
    let e : min count (8 * 0 - start) ≡ 0 = omega arith in
    (sym (fill-past b start count [] (omega arith)), tt, rw (e, advance-zero b used u))
mark_bytes-fill b (c ∷ cs) start count used h lt u =
    let (p, q, r, s) = mark_byte-fill (8 - start) b start c count used (omega arith) h.0 u in
    let m = mark_byte (8 - start) b start c count used in
    let (p', q', s') =
      mark_bytes-fill b cs 0 m.count m.used_pages h.1 (omega arith)
        (rw s (advance-lt b used (min count (8 - start)))) in
    let k : min count (8 * suc (length cs) - start)
        ≡ min count (8 - start) + min (count - (8 - start)) (8 * length cs - 0) =
      omega arith in
    let z : start - 8 ≡ 0 = omega arith in
    (rw (fill-append, p, p', r, length-bits_of 8 c, z), (q, q'), s' ∙ rw (k, s, r, advance-advance))

-- The pages that `mark_pages` reaches: it stops at the end of the bitmap.
abbrev pub reached : (start count : ℕ) → BitmapAllocator → ℕ
reached start count a = min count (8 * length a.bitmap - start)

fill-from_byte :
    (b : Bool) (start count : ℕ) (cs : List ℕ)
    → bits (take (start / 8) cs) ++ fill b (start % 8) count (bits (drop (start / 8) cs))
      ≡ fill b start count (bits cs)
fill-from_byte b start count cs =
    let i = start / 8 in
    let front = bits (take i cs) in
    let n : length front ≡ 8 * min i (length cs) =
      omega (arith, length-bits (take i cs), length-take i cs) in
    let whole : bits cs ≡ front ++ bits (drop i cs) =
      ap bits (sym (take-append-drop i cs)) ∙ bits-append (take i cs) (drop i cs) in
    rw (whole, fill-behind b start count front (bits (drop i cs)) (omega arith))
      (ap (◌++◌ front) (elim (dec_lt i (length cs)) [
        | yes h ↦ ap (λ s. fill b s count (bits (drop i cs))) (omega arith)
        | no h ↦
            fill-nil b _ _ count (bits (drop i cs))
              (omega (arith, length-bits (drop i cs), length-drop i cs))
      ]))

-- `mark_pages` gives the pages from `start` on, `count` of them as far as the bitmap goes, the
-- wanted bit and no other page, keeps the bitmap a list of bytes, and counts each page it reaches.
pub bits-mark_pages :
    (start count : ℕ) (b : Bool) (a : BitmapAllocator)
    → IsBytes a.bitmap
    → a.used_pages < word_mod
    → (bits (mark_pages start count b a).bitmap ≡ fill b start count (bits a.bitmap))
      × IsBytes (mark_pages start count b a).bitmap
      × ((mark_pages start count b a).used_pages ≡ advance b a.used_pages (reached start count a))
unfolding mark_pages
bits-mark_pages start count b a h u =
    let i = start / 8 in
    let cs = a.bitmap in
    let (p, q, r) =
      mark_bytes-fill b (drop i cs) (start % 8) count a.used_pages (IsBytes-drop i cs h)
        (omega arith) u in
    (
      rw (bits-append (take i cs) _, p) (fill-from_byte b start count cs),
      IsBytes-append (take i cs) _ (IsBytes-take i cs h) q,
      r ∙ ap (advance b a.used_pages) (omega (arith, length-drop i cs)),
    )
