-- ===== src/Numbers/Hex.antt =====
-- Numbers as uint_to_hex of core/stdlib.cpp writes them.
use juice_os_kernel.Prelude.{
  ℕ, zero, suc, ◌+◌, ◌/◌, ◌%◌, ◌^◌, ◌<◌, ◌≡◌, refl, ap, ◌∙◌, true, some, List, [], ◌∷◌, arith, ◌==◌,
  length, get_or, all_below, all_below-at,
}
use native.Mathlib.Nat.{pow-zero, pow-suc}
use juice_os_kernel.Numbers.Defs.{
  unsigned_mod, digit_char, hex_chars, hex_places, uint_to_hex, read_digits, str_to_uint,
}
use juice_os_kernel.Numbers.Digits.{IsBase, read_digits-digit_char, joined_digit}

hex_chars-digits : all_below 16 (λ r. get_or hex_chars r 0 == digit_char r) ≡ true
unfolding all_below digit_char
hex_chars-digits = refl

hex_char : (v : ℕ) → get_or hex_chars (v % 16) 0 ≡ digit_char (v % 16)
hex_char v =
    let e =
      all_below-at (λ r. get_or hex_chars r 0 == digit_char r) (v % 16) 16 (omega arith)
        hex_chars-digits in
    ground arith

sixteen-IsBase : IsBase 16
sixteen-IsBase = (omega arith, omega arith)

hex_places-read :
    (i v : ℕ) (z : List ℕ)
    → v < unsigned_mod
    → v < 16 ^ i
    → read_digits (hex_places i v z) 16 0 ≡ read_digits z 16 v
unfolding hex_places
hex_places-read zero v z h l = let p = pow-zero 16 in let e : v ≡ 0 = omega arith in rw e refl
hex_places-read (suc i) v z h l =
    let p = pow-suc 16 i in
    hex_places-read i (v / 16) (get_or hex_chars (v % 16) 0 ∷ z) (omega arith) (omega arith)
    ∙ (ap (λ c. read_digits (c ∷ z) 16 (v / 16)) (hex_char v)
        ∙ (read_digits-digit_char (v % 16) 16 (v / 16) z sixteen-IsBase (omega arith)
            ∙ ap (read_digits z 16) (joined_digit v 16 h sixteen-IsBase)))

length-hex_places : (i v : ℕ) (z : List ℕ) → length (hex_places i v z) ≡ i + length z
unfolding hex_places
length-hex_places zero v z = omega arith
length-hex_places (suc i) v z =
    omega (arith, length-hex_places i (v / 16) (get_or hex_chars (v % 16) 0 ∷ z))

-- A 32-bit value that has at most `width` hexadecimal digits is written in exactly `width`
-- characters and the terminator, and str_to_uint reads the same value back from them.
pub str_to_uint-uint_to_hex :
    (v width : ℕ)
    → v < unsigned_mod
    → v < 16 ^ width
    → (str_to_uint (uint_to_hex v width) 16 ≡ some v) × (length (uint_to_hex v width) ≡ width + 1)
unfolding str_to_uint uint_to_hex
str_to_uint-uint_to_hex v width h l =
    (hex_places-read width v (0 ∷ []) h l ∙ ended v, length-hex_places width v (0 ∷ []))
  where
    ended : (n : ℕ) → read_digits (0 ∷ []) 16 n ≡ some n
    ended n = unfold read_digits in refl
