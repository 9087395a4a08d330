-- ===== src/BitmapAllocator/Fill.antt =====
-- Setting a range of a list of bits.
use juice_os_kernel.Prelude.{
  ℕ, zero, suc, ◌-◌, ◌≤◌, ◌≡◌, refl, ap, Bool, List, [], ◌∷◌, ◌++◌, arith, length, set,
}

-- `xs` with the `count` entries from index `start` on set to `b`, as far as it goes.
unfoldable pub fill : Bool → (start count : ℕ) → List Bool → List Bool
fill b start count [] = []
fill b zero zero (x ∷ xs) = x ∷ xs
fill b zero (suc count) (x ∷ xs) = b ∷ fill b 0 count xs
fill b (suc start) count (x ∷ xs) = x ∷ fill b start count xs

pub fill-zero : (b : Bool) (start : ℕ) (xs : List Bool) → fill b start 0 xs ≡ xs
unfolding fill
fill-zero b start [] = refl
fill-zero b zero (x ∷ xs) = refl
fill-zero b (suc start) (x ∷ xs) = ap (◌∷◌ x) (fill-zero b start xs)

-- Setting one entry and then the ones behind it.
pub fill-set :
    (b : Bool) (i count : ℕ) (xs : List Bool)
    → fill b (suc i) count (set xs i b) ≡ fill b i (suc count) xs
unfolding fill
fill-set b i count [] = refl
fill-set b zero count (x ∷ xs) = refl
fill-set b (suc i) count (x ∷ xs) = ap (◌∷◌ x) (fill-set b i count xs)

pub length-fill :
    (b : Bool) (start count : ℕ) (xs : List Bool) → length (fill b start count xs) ≡ length xs
unfolding fill
length-fill b start count [] = refl
length-fill b zero zero (x ∷ xs) = refl
length-fill b zero (suc count) (x ∷ xs) = ap suc (length-fill b 0 count xs)
length-fill b (suc start) count (x ∷ xs) = ap suc (length-fill b start count xs)

pub fill-append :
    (b : Bool) (start count : ℕ) (xs ys : List Bool)
    → fill b start count (xs ++ ys)
      ≡ fill b start count xs ++ fill b (start - length xs) (count - (length xs - start)) ys
unfolding fill
fill-append b start count [] ys =
    let e : start - 0 ≡ start = omega arith in
    let k : count - (0 - start) ≡ count = omega arith in rw (e, k)
fill-append b zero zero (x ∷ xs) ys =
    let e : 0 - suc (length xs) ≡ 0 = omega arith in
    let k : 0 - (suc (length xs) - 0) ≡ 0 = omega arith in rw (e, k, fill-zero b 0 ys)
fill-append b zero (suc count) (x ∷ xs) ys =
    let e : 0 - suc (length xs) ≡ 0 - length xs = omega arith in
    let k : suc count - (suc (length xs) - 0) ≡ count - (length xs - 0) = omega arith in
    rw (e, k) (ap (◌∷◌ b) (fill-append b 0 count xs ys))
fill-append b (suc start) count (x ∷ xs) ys =
    let e : suc start - suc (length xs) ≡ start - length xs = omega arith in
    let k : count - (suc (length xs) - suc start) ≡ count - (length xs - start) = omega arith in
    rw (e, k) (ap (◌∷◌ x) (fill-append b start count xs ys))

pub fill-past : (b : Bool) (i count : ℕ) (xs : List Bool) → length xs ≤ i → fill b i count xs ≡ xs
unfolding fill
fill-past b i count [] h = refl
fill-past b zero count (x ∷ xs) h = absurd (omega arith)
fill-past b (suc i) count (x ∷ xs) h = ap (◌∷◌ x) (fill-past b i count xs (omega arith))

-- A range that starts behind `xs` leaves `xs` alone.
pub fill-behind :
    (b : Bool) (start count : ℕ) (xs ys : List Bool)
    → length xs ≤ start
    → fill b start count (xs ++ ys) ≡ xs ++ fill b (start - length xs) count ys
fill-behind b start count xs ys h =
    let e : count - (length xs - start) ≡ count = omega arith in
    rw (fill-append b start count xs ys, fill-past b start count xs h, e)

pub fill-nil :
    (b : Bool) (s t count : ℕ) (ys : List Bool)
    → length ys ≡ 0
    → fill b s count ys ≡ fill b t count ys
unfolding fill
fill-nil b s t count [] h = refl
fill-nil b s t count (y ∷ ys) h = absurd (omega arith)
