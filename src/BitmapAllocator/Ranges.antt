-- ===== src/BitmapAllocator/Ranges.antt =====
-- Ranges of a list of bits: what filling one changes, and where set and clear ones lie.
use juice_os_kernel.Prelude.{
  ℕ, zero, suc, ◌+◌, ◌≤◌, ◌<◌, ◌≡◌, refl, sym, ap, ap₂, ◌⊎◌, inl, inr, Bool, true, false, List, [],
  ◌∷◌, ◌++◌, arith, length, replicate,
}
use juice_os_kernel.BitmapAllocator.Fill.{fill}
use juice_os_kernel.BitmapAllocator.Runs.{AllIn}

unfoldable pub count_set : List Bool → ℕ
count_set [] = 0
count_set (true ∷ xs) = suc (count_set xs)
count_set (false ∷ xs) = count_set xs

pub count_set-le : (xs : List Bool) → count_set xs ≤ length xs
unfolding count_set
count_set-le [] = omega arith
count_set-le (true ∷ xs) = omega (arith, count_set-le xs)
count_set-le (false ∷ xs) = omega (arith, count_set-le xs)

pub count_set-fill-true :
    (s n : ℕ) (xs : List Bool)
    → AllIn false s n xs
    → count_set (fill true s n xs) ≡ count_set xs + n
unfolding count_set fill
count_set-fill-true s n [] h = omega arith
count_set-fill-true zero zero (x ∷ xs) h = omega arith
count_set-fill-true zero (suc n) (true ∷ xs) (e, h) = cc
count_set-fill-true zero (suc n) (false ∷ xs) (e, h) = omega (arith, count_set-fill-true 0 n xs h)
count_set-fill-true (suc s) n (true ∷ xs) h = omega (arith, count_set-fill-true s n xs h)
count_set-fill-true (suc s) n (false ∷ xs) h = count_set-fill-true s n xs h

pub count_set-fill-false :
    (s n : ℕ) (xs : List Bool)
    → AllIn true s n xs
    → count_set (fill false s n xs) + n ≡ count_set xs
unfolding count_set fill
count_set-fill-false s n [] h = omega arith
count_set-fill-false zero zero (x ∷ xs) h = omega arith
count_set-fill-false zero (suc n) (false ∷ xs) (e, h) = cc
count_set-fill-false zero (suc n) (true ∷ xs) (e, h) = omega (arith, count_set-fill-false 0 n xs h)
count_set-fill-false (suc s) n (true ∷ xs) h = omega (arith, count_set-fill-false s n xs h)
count_set-fill-false (suc s) n (false ∷ xs) h = count_set-fill-false s n xs h

pub AllIn-fill :
    (b c : Bool) (s n : ℕ) (xs : List Bool) → AllIn c s n xs → AllIn b s n (fill b s n xs)
unfolding fill
AllIn-fill b c s n [] h = h
AllIn-fill b c zero zero (x ∷ xs) h = tt
AllIn-fill b c zero (suc n) (x ∷ xs) (e, h) = (refl, AllIn-fill b c 0 n xs h)
AllIn-fill b c (suc s) n (x ∷ xs) h = AllIn-fill b c s n xs h

-- A range behind the filled one is not touched.
pub AllIn-fill_behind :
    (b c : Bool) (s n t m : ℕ) (xs : List Bool)
    → s + n ≤ t
    → AllIn c t m xs
    → AllIn c t m (fill b s n xs)
unfolding fill
AllIn-fill_behind b c s n t m [] le h = h
AllIn-fill_behind b c zero zero t m (x ∷ xs) le h = h
AllIn-fill_behind b c zero (suc n) zero m (x ∷ xs) le h = absurd (omega arith)
AllIn-fill_behind b c zero (suc n) (suc t) m (x ∷ xs) le h =
    AllIn-fill_behind b c 0 n t m xs (omega arith) h
AllIn-fill_behind b c (suc s) n zero m (x ∷ xs) le h = absurd (omega arith)
AllIn-fill_behind b c (suc s) n (suc t) m (x ∷ xs) le h =
    AllIn-fill_behind b c s n t m xs (omega arith) h

-- Filling back what was there before.
pub fill-fill :
    (b c : Bool) (s n : ℕ) (xs : List Bool) → AllIn b s n xs → fill b s n (fill c s n xs) ≡ xs
unfolding fill
fill-fill b c s n [] h = refl
fill-fill b c zero zero (x ∷ xs) h = refl
fill-fill b c zero (suc n) (x ∷ xs) (e, h) = ap₂ ◌∷◌ (sym e) (fill-fill b c 0 n xs h)
fill-fill b c (suc s) n (x ∷ xs) h = ap (◌∷◌ x) (fill-fill b c s n xs h)

pub AllIn-lt : (b : Bool) (s n : ℕ) (xs : List Bool) → 0 < n → AllIn b s n xs → s + n ≤ length xs
AllIn-lt b s n [] pos h = absurd (omega arith)
AllIn-lt b zero zero (x ∷ xs) pos h = absurd (omega arith)
AllIn-lt b zero (suc zero) (x ∷ xs) pos h = omega arith
AllIn-lt b zero (suc (suc n)) (x ∷ xs) pos (e, h) =
    omega (arith, AllIn-lt b 0 (suc n) xs (omega arith) h)
AllIn-lt b (suc s) n (x ∷ xs) pos h = omega (arith, AllIn-lt b s n xs pos h)

-- A set bit lies outside a clear range.
pub AllIn-apart :
    (p t m : ℕ) (xs : List Bool) → AllIn true p 1 xs → AllIn false t m xs → (p < t) ⊎ (t + m ≤ p)
AllIn-apart p t m [] h k = absurd (omega arith)
AllIn-apart zero zero zero (x ∷ xs) h k = inr (omega arith)
AllIn-apart zero zero (suc m) (x ∷ xs) (e, h) (e', k) = cc
AllIn-apart zero (suc t) m (x ∷ xs) h k = inl (omega arith)
AllIn-apart (suc p) zero zero (x ∷ xs) h k = inr (omega arith)
AllIn-apart (suc p) zero (suc m) (x ∷ xs) h (e, k) = omega (arith, AllIn-apart p 0 m xs h k)
AllIn-apart (suc p) (suc t) m (x ∷ xs) h k = omega (arith, AllIn-apart p t m xs h k)

-- A clear range lies behind a full front.
pub AllIn-behind_full :
    (t s n : ℕ) (rest : List Bool) → 0 < n → AllIn false s n (replicate t true ++ rest) → t ≤ s
AllIn-behind_full zero s n rest pos h = omega arith
AllIn-behind_full (suc t) zero zero rest pos h = absurd (omega arith)
AllIn-behind_full (suc t) zero (suc n) rest pos (e, h) = cc
AllIn-behind_full (suc t) (suc s) n rest pos h = omega (arith, AllIn-behind_full t s n rest pos h)
