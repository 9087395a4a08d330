-- ===== src/Prelude/Writes.antt =====
-- Buffers that are written from the front: what was written, and what the buffer held behind it.
use Prim.Native.Nat.{ℕ, zero, suc, ◌+◌, ◌≤◌, ◌<◌}
use mathlib.Core.Path.{◌≡◌, refl, ap, ◌∙◌, sym}
use mathlib.Core.List.{List, [], ◌∷◌, ◌++◌, append_assoc}
use native.Mathlib.Omega.{arith}
use juice_os_kernel.Prelude.Lists.{
  length, set, take, drop, length-append, length-drop, take-append-drop, get_or,
}

module _ {ℓ} {A : Type ℓ} where
  unfoldable pub over : (written buffer : List A) → List A
  over written buffer = written ++ drop (length written) buffer

  set-append :
      (xs : List A) (y : A) (ys : List A) (v : A)
      → set (xs ++ (y ∷ ys)) (length xs) v ≡ xs ++ (v ∷ ys)
  set-append [] y ys v = refl
  set-append (x ∷ xs) y ys v = ap (x ∷◌) (set-append xs y ys v)

  drop-cons : (n : ℕ) (xs : List A) → n < length xs → (x : A) × (drop n xs ≡ x ∷ drop (suc n) xs)
  drop-cons n [] h = elim h [ ]
  drop-cons zero (x ∷ xs) h = (x, refl)
  drop-cons (suc n) (x ∷ xs) h = drop-cons n xs (omega arith)

  -- A write at the end of what was written.
  pub set-over :
      (written buffer : List A) (i : ℕ) (v : A)
      → i ≡ length written
      → i < length buffer
      → set (over written buffer) i v ≡ over (written ++ (v ∷ [])) buffer
  unfolding over
  set-over written buffer i v e h =
      let (x, d) = drop-cons (length written) buffer (omega arith) in
      let l : length (written ++ (v ∷ [])) ≡ suc (length written) =
        omega (arith, length-append written (v ∷ [])) in
      rw (e, d, l)
        (set-append written x (drop (suc (length written)) buffer) v
          ∙ sym (append_assoc written (v ∷ []) (drop (suc (length written)) buffer)))

  pub length-take_le : (n : ℕ) (xs : List A) → n ≤ length xs → length (take n xs) ≡ n
  length-take_le zero xs h = refl
  length-take_le (suc n) [] h = elim h [ ]
  length-take_le (suc n) (x ∷ xs) h = ap suc (length-take_le n xs (omega arith))

  pub over-take :
      (n : ℕ) (buffer : List A) → n ≤ length buffer → over (take n buffer) buffer ≡ buffer
  unfolding over
  over-take n buffer h = rw (length-take_le n buffer h) (take-append-drop n buffer)

  pub length-over :
      (written buffer : List A)
      → length written ≤ length buffer
      → length (over written buffer) ≡ length buffer
  unfolding over
  length-over written buffer h = omega (
    arith,
    length-append written (drop (length written) buffer),
    length-drop (length written) buffer,
  )

  pub get_or-append :
      (xs ys : List A) (i : ℕ) (d : A) → i < length xs → get_or (xs ++ ys) i d ≡ get_or xs i d
  get_or-append [] ys i d h = elim h [ ]
  get_or-append (x ∷ xs) ys zero d h = refl
  get_or-append (x ∷ xs) ys (suc i) d h = get_or-append xs ys i d (omega arith)

  pub get_or-over :
      (written buffer : List A) (i : ℕ) (d : A)
      → i < length written
      → get_or (over written buffer) i d ≡ get_or written i d
  unfolding over
  get_or-over written buffer i d h = get_or-append written (drop (length written) buffer) i d h

  pub take-append : (k : ℕ) (xs ys : List A) → k ≤ length xs → take k (xs ++ ys) ≡ take k xs
  take-append zero xs ys h = refl
  take-append (suc k) [] ys h = elim h [ ]
  take-append (suc k) (x ∷ xs) ys h = ap (x ∷◌) (take-append k xs ys (omega arith))

  pub take-over :
      (k : ℕ) (written buffer : List A)
      → k ≤ length written
      → take k (over written buffer) ≡ take k written
  unfolding over
  take-over k written buffer h = take-append k written (drop (length written) buffer) h

  pub take-length : (xs : List A) → take (length xs) xs ≡ xs
  take-length [] = refl
  take-length (x ∷ xs) = ap (x ∷◌) (take-length xs)

  pub take-suc :
      (i : ℕ) (xs : List A) (d : A)
      → i < length xs
      → take (suc i) xs ≡ take i xs ++ (get_or xs i d ∷ [])
  take-suc i [] d h = elim h [ ]
  take-suc zero (x ∷ xs) d h = refl
  take-suc (suc i) (x ∷ xs) d h = ap (x ∷◌) (take-suc i xs d (omega arith))

  -- Any write is one at the end of what stands before it.
  pub set-take :
      (buffer : List A) (i : ℕ) (v : A)
      → i < length buffer
      → set buffer i v ≡ over (take i buffer ++ (v ∷ [])) buffer
  set-take buffer i v h =
      ap (λ (m : List A). set m i v) (sym (over-take i buffer (omega arith)))
      ∙ set-over (take i buffer) buffer i v (sym (length-take_le i buffer (omega arith))) h

  pub get_or-drop : (t n : ℕ) (xs : List A) (d : A) → get_or (drop t xs) n d ≡ get_or xs (t + n) d
  get_or-drop zero n xs d = let e : 0 + n ≡ n = omega arith in rw e refl
  get_or-drop (suc t) n [] d = refl
  get_or-drop (suc t) n (x ∷ xs) d =
      let e : suc t + n ≡ suc (t + n) = omega arith in rw e (get_or-drop t n xs d)

  -- A write over the last element that was written.
  pub set-over_last :
      (written buffer : List A) (i : ℕ) (c v : A)
      → i ≡ length written
      → set (over (written ++ (c ∷ [])) buffer) i v ≡ over (written ++ (v ∷ [])) buffer
  unfolding over
  set-over_last written buffer i c v e =
      let l : length (written ++ (c ∷ [])) ≡ suc (length written) =
        omega (arith, length-append written (c ∷ [])) in
      let k : length (written ++ (v ∷ [])) ≡ suc (length written) =
        omega (arith, length-append written (v ∷ [])) in
      let rest = drop (suc (length written)) buffer in
      rw (e, l, k)
        (ap (λ (xs : List A). set xs (length written) v) (append_assoc written (c ∷ []) rest)
          ∙ (set-append written c rest v ∙ sym (append_assoc written (v ∷ []) rest)))

  pub take-add : (n k : ℕ) (xs : List A) → take (n + k) xs ≡ take n xs ++ take k (drop n xs)
  take-add zero k xs = let e : 0 + k ≡ k = omega arith in rw e refl
  take-add (suc n) zero [] = let e : suc n + 0 ≡ suc n = omega arith in rw e refl
  take-add (suc n) (suc k) [] = let e : suc n + suc k ≡ suc (n + suc k) = omega arith in rw e refl
  take-add (suc n) k (x ∷ xs) =
      let e : suc n + k ≡ suc (n + k) = omega arith in rw e (ap (x ∷◌) (take-add n k xs))

  pub drop_nil : (m : ℕ) → drop {A = A} m [] ≡ []
  drop_nil zero = refl
  drop_nil (suc m) = refl

  pub drop-drop : (n m : ℕ) (xs : List A) → drop (n + m) xs ≡ drop m (drop n xs)
  drop-drop zero m xs = let e : 0 + m ≡ m = omega arith in rw e refl
  drop-drop (suc n) m [] = let e : suc n + m ≡ suc (n + m) = omega arith in rw e (sym (drop_nil m))
  drop-drop (suc n) m (x ∷ xs) =
      let e : suc n + m ≡ suc (n + m) = omega arith in rw e (drop-drop n m xs)

  drop-append_self : (xs ys : List A) → drop (length xs) (xs ++ ys) ≡ ys
  drop-append_self [] ys = refl
  drop-append_self (x ∷ xs) ys = drop-append_self xs ys

  -- Behind `front`, the buffer reads as `back` and what follows.
  pub drop-over :
      (front back buffer : List A)
      → drop (length front) (over (front ++ back) buffer)
        ≡ back ++ drop (length (front ++ back)) buffer
  unfolding over
  drop-over front back buffer =
      ap (drop (length front)) (append_assoc front back (drop (length (front ++ back)) buffer))
      ∙ drop-append_self front (back ++ drop (length (front ++ back)) buffer)

  -- A text over the front of a buffer, of which the back was written before.
  pub over_twice :
      (text front back buffer : List A)
      → length text ≡ length front
      → over text (over (front ++ back) buffer) ≡ over (text ++ back) buffer
  unfolding over
  over_twice text front back buffer e =
      let l : length (front ++ back) ≡ length (text ++ back) =
        omega (arith, length-append front back, length-append text back) in
      ap (λ (k : ℕ). text ++ drop k (over (front ++ back) buffer)) e
      ∙ ap (text ++◌) (drop-over front back buffer)
      ∙ sym (append_assoc text back (drop (length (front ++ back)) buffer))
      ∙ ap (λ (k : ℕ). (text ++ back) ++ drop k buffer) l
