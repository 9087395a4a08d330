-- ===== src/Syslog/Tails.antt =====
-- The last entries of a list.
use juice_os_kernel.Prelude.{
  ℕ, zero, suc, ◌+◌, ◌-◌, ◌≤◌, ◌≡◌, refl, ap, List, [], ◌∷◌, ◌++◌, arith, dec_le, length, take,
  drop, length-append, length-drop,
}

module _ {ℓ} {A : Type ℓ} where
  -- The last `n` entries of a list.
  unfoldable pub last : ℕ → List A → List A
  last n xs = drop (length xs - n) xs

  pub drop-append : (n : ℕ) (xs ys : List A) → n ≤ length xs → drop n (xs ++ ys) ≡ drop n xs ++ ys
  drop-append zero xs ys h = refl
  drop-append (suc n) [] ys h = absurd (omega arith)
  drop-append (suc n) (x ∷ xs) ys h = drop-append n xs ys (omega arith)

  pub drop_past : (xs : List A) (n : ℕ) (ys : List A) → drop (length xs + n) (xs ++ ys) ≡ drop n ys
  drop_past [] n ys = let e : 0 + n ≡ n = omega arith in rw e
  drop_past (x ∷ xs) n ys =
      let e : suc (length xs) + n ≡ suc (length xs + n) = omega arith in rw e (drop_past xs n ys)

  pub take_front : (xs ys : List A) → take (length xs) (xs ++ ys) ≡ xs
  take_front [] ys = refl
  take_front (x ∷ xs) ys = ap (◌∷◌ x) (take_front xs ys)

  pub drop_front : (xs ys : List A) → drop (length xs) (xs ++ ys) ≡ ys
  drop_front [] ys = refl
  drop_front (x ∷ xs) ys = drop_front xs ys

  pub drop-drop : (m n : ℕ) (xs : List A) → drop m (drop n xs) ≡ drop (n + m) xs
  drop-drop m zero xs = let e : 0 + m ≡ m = omega arith in rw e
  drop-drop zero (suc n) [] = let e : suc n + 0 ≡ suc n = omega arith in rw e
  drop-drop (suc m) (suc n) [] = let e : suc n + suc m ≡ suc (n + suc m) = omega arith in rw e
  drop-drop m (suc n) (x ∷ xs) =
      let e : suc n + m ≡ suc (n + m) = omega arith in rw e (drop-drop m n xs)

  -- What precedes the last entries does not matter.
  pub last-append_last : (n : ℕ) (xs ys : List A) → last n (xs ++ last n ys) ≡ last n (xs ++ ys)
  unfolding last
  last-append_last n xs ys = elim (dec_le (length ys) n) [
    | yes short ↦ let z : length ys - n ≡ 0 = omega arith in rw z
    | no long ↦
        let k = length ys - n in
        let a : length (xs ++ drop k ys) - n ≡ length xs =
          omega (arith, length-append xs (drop k ys), length-drop k ys) in
        let b : length (xs ++ ys) - n ≡ length xs + k = omega (arith, length-append xs ys) in
        rw (a, b, drop_front xs (drop k ys), drop_past xs k ys)
  ]

  pub last-last : (n : ℕ) (xs ys : List A) → last n (last n xs ++ ys) ≡ last n (xs ++ ys)
  unfolding last
  last-last n xs ys = elim (dec_le (length xs) n) [
    | yes short ↦ let z : length xs - n ≡ 0 = omega arith in rw z
    | no long ↦
        let k = length xs - n in
        let a : length (drop k xs ++ ys) - n ≡ length ys =
          omega (arith, length-append (drop k xs) ys, length-drop k xs) in
        let b : length (xs ++ ys) - n ≡ k + length ys = omega (arith, length-append xs ys) in
        rw (a, b, ← drop-append k xs ys (omega arith)) (drop-drop (length ys) k (xs ++ ys))
  ]

pub drop_all : (B : List ℕ) → drop (length B) B ≡ []
drop_all [] = refl
drop_all (b ∷ B) = drop_all B

pub last_whole : (n : ℕ) (xs : List ℕ) → length xs ≤ n → last n xs ≡ xs
unfolding last
last_whole n xs h = let z : length xs - n ≡ 0 = omega arith in rw z

pub last-drop : (n k : ℕ) (xs : List ℕ) → length xs ≡ n + k → last n xs ≡ drop k xs
unfolding last
last-drop n k xs h = let z : length xs - n ≡ k = omega arith in rw z

pub length-last : (n : ℕ) (xs : List ℕ) → length (last n xs) ≤ n
unfolding last
length-last n xs = omega (arith, length-drop (length xs - n) xs)
