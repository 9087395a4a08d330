-- ===== src/Numbers/Digits.antt =====
-- The digits that uint_to_str of core/stdlib.cpp writes, read back one by one.
use juice_os_kernel.Prelude.{
  ℕ, zero, suc, ◌+◌, ◌*◌, ◌/◌, ◌%◌, ◌^◌, ◌≤◌, ◌<◌, ◌≡◌, refl, ap, ◌∙◌, subst, Bool, true, false,
  Option, none, some, List, [], ◌∷◌, ◌++◌, arith, leb, ◌==◌, ℕ_discrete, length, length-append,
  all_below, all_below-at,
}
use native.Mathlib.Nat.{
  div-add-mod', mod-lt, mod-eq_of_lt, div-lt_iff_lt-mul, div-le_self, pow-zero, pow-suc,
}
use mathlib.Core.List.{reverse, reverse-append}
use juice_os_kernel.Numbers.Defs.{
  unsigned_mod, digit_char, collect_digits, upper, digit_number, read_digits,
}

-- A base that the conversions take.
abbrev pub IsBase : ℕ → Type 0
IsBase base = (2 ≤ base) × (base ≤ 16)

abbrev is_number : ℕ → Option ℕ → Bool
is_number r none = false
is_number r (some n) = n == r

number : (r : ℕ) (o : Option ℕ) → is_number r o ≡ true → o ≡ some r
number r none e = ground arith
number r (some n) e = ap some (ground arith)

digits_known : all_below 16 (λ r. is_number r (digit_number (upper (digit_char r)))) ≡ true
unfolding all_below digit_number upper digit_char
digits_known = refl

pub digit_number-digit_char : (r : ℕ) → r < 16 → digit_number (upper (digit_char r)) ≡ some r
digit_number-digit_char r h =
    number r _
      (all_below-at (λ r. is_number r (digit_number (upper (digit_char r)))) r 16 h digits_known)

pub digit_char-ne_zero : (r : ℕ) → (digit_char r == 0) ≡ false
unfolding digit_char
digit_char-ne_zero r = ground arith

pub read_digits-digit_char :
    (r base n : ℕ) (z : List ℕ)
    → IsBase base
    → r < base
    → read_digits (digit_char r ∷ z) base n
      ≡ read_digits z base ((n * base % unsigned_mod + r) % unsigned_mod)
unfolding read_digits
read_digits-digit_char r base n z (l, h) k =
    let other : leb base r ≡ false = ground arith in
    let d = digit_number-digit_char r (omega arith) in rw (digit_char-ne_zero r, d, other) refl

pub joined_digit :
    (v base : ℕ)
    → v < unsigned_mod
    → IsBase base
    → (v / base * base % unsigned_mod + v % base) % unsigned_mod ≡ v
joined_digit v base h (l, k) =
    let e = div-add-mod' v base in
    let small : v / base * base < unsigned_mod = omega arith in
    rw (mod-eq_of_lt small, e, mod-eq_of_lt h) refl

-- What the loop of uint_to_str leaves, when the value has at most `k` digits and as many bytes are free.
pub collect_digits-some :
    (k free v base : ℕ) (temp : List ℕ)
    → IsBase base
    → k ≤ free
    → v < base ^ k
    → (t : List ℕ) × (collect_digits free v base temp ≡ some t) × (length t ≤ length temp + k)
unfolding collect_digits
collect_digits-some zero zero v base temp b h l =
    let p : base ^ 0 ≡ 1 = pow-zero base in
    let e : v ≡ 0 = omega (arith, p) in (temp, rw e refl, omega arith)
collect_digits-some zero (suc free) v base temp b h l =
    let p : base ^ 0 ≡ 1 = pow-zero base in
    let e : v ≡ 0 = omega (arith, p) in (temp, rw e refl, omega arith)
collect_digits-some (suc k) zero v base temp b h l = elim h [ ]
collect_digits-some (suc k) (suc free) v base temp b h l = elim (ℕ_discrete v 0) [
  | yes e ↦ (temp, rw e refl, omega arith)
  | no n ↦
      let (t, e, m) =
        collect_digits-some k free (v / base) base (temp ++ (digit_char (v % base) ∷ [])) b
          (omega arith)
          ((div-lt_iff_lt-mul {k = base} {x = v} {y = base ^ k} (omega arith)).1
            (subst (λ p. v < p) (pow-suc base k) l)) in
      let f : (v == 0) ≡ false = ground arith in
      let m' : length t ≤ length temp + suc k =
        omega (arith, length-append temp (digit_char (v % base) ∷ [])) in
      (t, rw f e, m')
]

stopped :
    (v base : ℕ) (temp t z : List ℕ)
    → v ≡ 0
    → some temp ≡ some t
    → read_digits (reverse t ++ z) base 0 ≡ read_digits (reverse temp ++ z) base v
stopped v base temp t z v0 e = let same : temp ≡ t = cc in rw (v0, same) refl

pub collect_digits-read :
    (free v base : ℕ) (temp t z : List ℕ)
    → IsBase base
    → v < unsigned_mod
    → collect_digits free v base temp ≡ some t
    → read_digits (reverse t ++ z) base 0 ≡ read_digits (reverse temp ++ z) base v
unfolding collect_digits
collect_digits-read zero v base temp t z b h e = elim (ℕ_discrete v 0) [
  | yes v0 ↦ let f : (v == 0) ≡ true = ground arith in stopped v base temp t z v0 (rw f at e)
  | no n ↦
      let f : (v == 0) ≡ false = ground arith in
      let impossible : none ≡ some t = rw f at e in ground arith
]
collect_digits-read (suc free) v base temp t z b h e = elim (ℕ_discrete v 0) [
  | yes v0 ↦ let f : (v == 0) ≡ true = ground arith in stopped v base temp t z v0 (rw f at e)
  | no n ↦
      let f : (v == 0) ≡ false = ground arith in
      let d = digit_char (v % base) in
      collect_digits-read free (v / base) base (temp ++ (d ∷ [])) t z b
        (omega (arith, div-le_self v base)) (rw f at e)
      ∙ (ap (λ l. read_digits (l ++ z) base (v / base)) (reverse-append temp (d ∷ []))
          ∙ (read_digits-digit_char (v % base) base (v / base) (reverse temp ++ z) b
                (mod-lt v (omega arith))
              ∙ ap (read_digits (reverse temp ++ z) base) (joined_digit v base h b)))
]
