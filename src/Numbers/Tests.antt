-- ===== src/Numbers/Tests.antt =====
-- The conversions between numbers and text at concrete values.
use juice_os_kernel.Prelude.{ℕ, ◌≡◌, refl, some, List, [], ◌∷◌, arith}
use juice_os_kernel.Numbers.Defs.{
  uint_to_str, uint_to_hex, uint64_to_hex, collect_digits, copy_down, digit_char, hex_places,
  read_digits, upper, digit_number, str_to_uint,
}
use juice_os_kernel.Numbers.Reading.{str_to_uint-uint_to_str}

writes_109 : uint_to_str 109 10 ≡ some (b'1' ∷ b'0' ∷ b'9' ∷ 0 ∷ [])
unfolding uint_to_str collect_digits copy_down digit_char
writes_109 = refl

refuses_base_17 : uint_to_str 109 17 ≡ some (b'?' ∷ 0 ∷ [])
unfolding uint_to_str
refuses_base_17 = refl

writes_hex : uint_to_hex 0xab 4 ≡ b'0' ∷ b'0' ∷ b'A' ∷ b'B' ∷ 0 ∷ []
unfolding uint_to_hex hex_places
writes_hex = refl

writes_wide_hex :
    uint64_to_hex 0x1f000000000 12
    ≡ b'0' ∷ b'1' ∷ b'F' ∷ b'0' ∷ b'0' ∷ b'0' ∷ b'0' ∷ b'0' ∷ b'0' ∷ b'0' ∷ b'0' ∷ b'0' ∷ 0 ∷ []
unfolding uint64_to_hex hex_places
writes_wide_hex = refl

-- The text ends at the first character that is no digit of the base; small letters are digits.
reads_a_prefix : str_to_uint (b'1' ∷ b'f' ∷ b'g' ∷ 0 ∷ []) 16 ≡ some 0x1f
unfolding str_to_uint read_digits upper digit_number
reads_a_prefix = refl

str_to_uint-uint_to_str_example :
    (text : List ℕ) × (uint_to_str 4096 7 ≡ some text) × (str_to_uint text 7 ≡ some 4096)
str_to_uint-uint_to_str_example =
    str_to_uint-uint_to_str 4096 7 (omega arith) (omega arith, omega arith)
