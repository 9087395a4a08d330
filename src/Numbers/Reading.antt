-- ===== src/Numbers/Reading.antt =====
-- Numbers as uint_to_str of core/stdlib.cpp writes them, read back by str_to_uint.
use juice_os_kernel.Prelude.{
  take-suc, take-length, ℕ, zero, suc, ◌+◌, ◌^◌, ◌≤◌, ◌<◌, ◌≡◌, refl, sym, ap, ◌∙◌, ◌≢◌, false,
  ◌||◌, some, List, [], ◌∷◌, ◌++◌, append_assoc, arith, ltb, leb, ◌==◌, ℕ_discrete, length, get_or,
  take, length-append,
}
use native.Mathlib.Nat.{pow-le-pow_left}
use mathlib.Core.List.{reverse, reverse-append}
use juice_os_kernel.Numbers.Defs.{
  unsigned_mod, collect_digits, copy_down, uint_to_str, upper, digit_number, read_digits,
  str_to_uint,
}
use juice_os_kernel.Numbers.Digits.{IsBase, collect_digits-some, collect_digits-read}

copy_down-take :
    (i : ℕ) (t out : List ℕ)
    → i ≤ length t
    → copy_down i t out ≡ out ++ (reverse (take i t) ++ (0 ∷ []))
unfolding copy_down
copy_down-take zero t out h = refl
copy_down-take (suc i) t out h =
    let x = get_or t i 0 in
    copy_down-take i t (out ++ (x ∷ [])) (omega arith)
    ∙ (append_assoc out (x ∷ []) (reverse (take i t) ++ (0 ∷ []))
        ∙ ap (λ l. out ++ (l ++ (0 ∷ [])))
            (sym (ap reverse (take-suc i t 0 h) ∙ reverse-append (take i t) (x ∷ []))))

length-copy_down : (i : ℕ) (t out : List ℕ) → length (copy_down i t out) ≡ length out + i + 1
unfolding copy_down
length-copy_down zero t out = omega (arith, length-append out (0 ∷ []))
length-copy_down (suc i) t out = omega (
  arith,
  length-copy_down i t (out ++ (get_or t i 0 ∷ [])),
  length-append out (get_or t i 0 ∷ []),
)

pub copy_down-reverse : (t : List ℕ) → copy_down (length t) t [] ≡ reverse t ++ (0 ∷ [])
copy_down-reverse t =
    copy_down-take (length t) t [] (omega arith) ∙ ap (λ l. reverse l ++ (0 ∷ [])) (take-length t)

read_digits-zero : (n base : ℕ) (z : List ℕ) → read_digits (0 ∷ z) base n ≡ some n
unfolding read_digits
read_digits-zero n base z = refl

zero_text : (base : ℕ) → IsBase base → read_digits (b'0' ∷ 0 ∷ []) base 0 ≡ some 0
unfolding read_digits upper digit_number
zero_text base (l, h) =
    let other : leb base 0 ≡ false = ground arith in rw other (ap some (omega arith))

pub accepted : (base : ℕ) → IsBase base → (ltb base 2 || ltb 16 base) ≡ false
accepted base (l, h) = ground arith

pub written :
    (v base : ℕ)
    → IsBase base
    → v ≢ 0
    → (t : List ℕ) → collect_digits 32 v base [] ≡ some t
    → uint_to_str v base ≡ some (copy_down (length t) t [])
unfolding uint_to_str
written v base b n t e = let f : (v == 0) ≡ false = ground arith in rw (accepted base b, f, e) refl

pub written_zero : (v base : ℕ) → IsBase base → v ≡ 0 → uint_to_str v base ≡ some (b'0' ∷ 0 ∷ [])
unfolding uint_to_str
written_zero v base b e = rw (accepted base b, e) refl

-- Every 32-bit value is written in every base from 2 to 16 without a byte behind the 32 of the
-- buffer in between, and str_to_uint reads the same value back.
pub str_to_uint-uint_to_str :
    (v base : ℕ)
    → v < unsigned_mod
    → IsBase base
    → (text : List ℕ) × (uint_to_str v base ≡ some text) × (str_to_uint text base ≡ some v)
unfolding str_to_uint
str_to_uint-uint_to_str v base h b = elim (ℕ_discrete v 0) [
  | yes e ↦ (b'0' ∷ 0 ∷ [], written_zero v base b e, rw (accepted base b, e) (zero_text base b))
  | no n ↦
      let wide : v < base ^ 32 = omega (arith, pow-le-pow_left {n = 2} {m = base} b.0 32) in
      let (t, e, l) = collect_digits-some 32 32 v base [] b (omega arith) wide in
      (
        copy_down (length t) t [],
        written v base b n t e,
        rw (accepted base b, copy_down-reverse t)
            (collect_digits-read 32 v base [] t (0 ∷ []) b h e ∙ read_digits-zero v base []),
      )
]

-- A value of at most `k` digits, of one at least, takes at most `k` bytes and the terminator.
pub length-uint_to_str :
    (k v base : ℕ)
    → 1 ≤ k
    → k ≤ 32
    → IsBase base
    → v < base ^ k
    → (text : List ℕ) × (uint_to_str v base ≡ some text) × (length text ≤ k + 1)
length-uint_to_str k v base h l b w = elim (ℕ_discrete v 0) [
  | yes e ↦ (b'0' ∷ 0 ∷ [], written_zero v base b e, omega arith)
  | no n ↦
      let (t, e, m) = collect_digits-some k 32 v base [] b l w in
      let long : length (copy_down (length t) t []) ≤ k + 1 =
        omega (arith, length-copy_down (length t) t []) in
      (copy_down (length t) t [], written v base b n t e, long)
]
