-- ===== src/BitmapAllocator/ByteTables.antt =====
-- The bits of a byte and its trailing ones and zeros, by a check of all bytes.
use juice_os_kernel.Prelude.{
  ℕ, zero, suc, ◌-◌, ◌/◌, ◌^◌, ◌≤◌, ◌<◌, ◌≡◌, refl, ap, ◌≢◌, Bool, true, false, not, ◌&&◌, ◌||◌,
  ◌∷◌, ◌++◌, arith, ltb, leb, ◌==◌, ltb→lt, lt→ltb, leb→le, replicate, all_below, all_below-at,
  bits_of, bits_eq, bits_eq-eq,
}
use juice_os_kernel.BitmapAllocator.Defs.{trailing_ones, trailing_zeros}

pub quotient-lt : (c d : ℕ) → c < 256 → c / d < 256
quotient-lt c d h = omega arith

-- The bits of a byte behind its lowest ones and zeros.
abbrev splits : (b : Bool) → (t m c : ℕ) → Bool
splits b t m c =
    leb t m
    && (ltb (c / 2 ^ t) (2 ^ (m - t))
        && bits_eq (bits_of m c) (replicate t b ++ bits_of (m - t) (c / 2 ^ t)))

abbrev zeros_ok : ℕ → ℕ → Bool
zeros_ok m c =
    (c == 0)
    || (ltb 0 (trailing_ones 8 c)
        || (ltb 0 (trailing_zeros 8 c) && splits false (trailing_zeros 8 c) m c))

abbrev ones_ok : ℕ → ℕ → Bool
ones_ok m c = splits true (trailing_ones 8 c) m c

abbrev scan_ok : ℕ → ℕ → Bool
scan_ok m c = not (ltb c (2 ^ m)) || (ones_ok m c && zeros_ok m c)

scan_table : all_below 9 (λ m. all_below 256 (scan_ok m)) ≡ true
unfolding all_below bits_of bits_eq trailing_ones trailing_zeros
scan_table = refl

scan_ok_all : (m c : ℕ) → m < 9 → c < 256 → scan_ok m c ≡ true
scan_ok_all m c hm hc =
    all_below-at (scan_ok m) c 256 hc
      (all_below-at (λ m. all_below 256 (scan_ok m)) m 9 hm scan_table)

abbrev pub Splits : (b : Bool) → (t m c : ℕ) → Type 0
Splits b t m c =
    (t ≤ m)
    × (c / 2 ^ t < 2 ^ (m - t))
    × (bits_of m c ≡ replicate t b ++ bits_of (m - t) (c / 2 ^ t))

splits-Splits : (b : Bool) (t m c : ℕ) → splits b t m c ≡ true → Splits b t m c
splits-Splits b t m c h =
    (leb→le t m (ground arith), ltb→lt _ _ (ground arith), bits_eq-eq _ _ (ground arith))

pub ones_split : (m c : ℕ) → m < 9 → c < 256 → c < 2 ^ m → Splits true (trailing_ones 8 c) m c
ones_split m c hm hc lt =
    splits-Splits true (trailing_ones 8 c) m c
      (ground (arith, scan_ok_all m c hm hc, lt→ltb c (2 ^ m) lt))

pub zeros_split :
    (m c : ℕ)
    → m < 9
    → c < 256
    → c < 2 ^ m
    → trailing_ones 8 c ≡ 0
    → c ≢ 0
    → (0 < trailing_zeros 8 c) × Splits false (trailing_zeros 8 c) m c
zeros_split m c hm hc lt e ne =
    let h : (ltb 0 (trailing_zeros 8 c) && splits false (trailing_zeros 8 c) m c) ≡ true =
      (ground (arith, scan_ok_all m c hm hc, lt→ltb c (2 ^ m) lt)) in
    (ltb→lt _ _ (ground arith), splits-Splits false (trailing_zeros 8 c) m c (ground arith))

pub bits_of-zero : (m : ℕ) → bits_of m 0 ≡ replicate m false
unfolding bits_of
bits_of-zero zero = refl
bits_of-zero (suc m) = ap (◌∷◌ false) (bits_of-zero m)
