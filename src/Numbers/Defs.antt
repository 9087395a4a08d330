-- ===== src/Numbers/Defs.antt =====
-- The conversions of core/stdlib.cpp between numbers and text. A text is the list of its bytes, with its terminator.
use juice_os_kernel.Prelude.{
  ℕ, zero, suc, ◌+◌, ◌-◌, ◌*◌, ◌/◌, ◌%◌, Bool, false, not, ◌&&◌, ◌||◌, Option, none, some, List, [],
  ◌∷◌, ◌++◌, ltb, leb, ◌==◌, if◌then◌else◌, length, get_or,
}

-- `unsigned` has 32 bits.
abbrev pub unsigned_mod : ℕ
unsigned_mod = 0x100000000

-- The character of a remainder below the base.
unfoldable pub digit_char : ℕ → ℕ
digit_char reminder = if ltb reminder 10 then b'0' + reminder else b'A' + reminder - 10

-- The loop that fills `temp`, of which so many bytes are free; `none` is a write behind its end.
unfoldable pub collect_digits : (free_bytes value base : ℕ) → (temp : List ℕ) → Option (List ℕ)
collect_digits zero value base temp = if value == 0 then some temp else none
collect_digits (suc free_bytes) value base temp =
    let rest =
      collect_digits free_bytes (value / base) base (temp ++ (digit_char (value % base) ∷ [])) in
    if value == 0 then some temp else rest

-- The loop that copies `temp` from its end, and the terminator behind it.
unfoldable pub copy_down : (i : ℕ) → (temp : List ℕ) → (out_buffer : List ℕ) → List ℕ
copy_down zero temp out_buffer = out_buffer ++ (0 ∷ [])
copy_down (suc i) temp out_buffer = copy_down i temp (out_buffer ++ (get_or temp i 0 ∷ []))

abbrev pub copy_digits : Option (List ℕ) → Option (List ℕ)
copy_digits none = none
copy_digits (some temp) = some (copy_down (length temp) temp [])

-- The bytes that the call writes to `outBuffer`. A negative base is a large number here, and is
-- refused like one.
unfoldable pub uint_to_str : (value base : ℕ) → Option (List ℕ)
uint_to_str value base =
    if ltb base 2 || ltb 16 base
    then some (b'?' ∷ 0 ∷ [])
    else if value == 0
    then some (b'0' ∷ 0 ∷ [])
    else copy_digits (collect_digits 32 value base [])

abbrev pub prepend : ℕ → Option (List ℕ) → Option (List ℕ)
prepend ch none = none
prepend ch (some text) = some (ch ∷ text)

-- An `int` is given by its 32 bits, and is negative from 2 ^ 31 on; `-value` wraps around.
unfoldable pub int_to_str : (value base : ℕ) → Option (List ℕ)
int_to_str value base =
    if leb 0x80000000 value && (base == 10)
    then prepend b'-' (uint_to_str ((unsigned_mod - value) % unsigned_mod) base)
    else uint_to_str value base

abbrev pub hex_chars : List ℕ
hex_chars =
    b'0' ∷ b'1' ∷ b'2' ∷ b'3' ∷ b'4' ∷ b'5' ∷ b'6' ∷ b'7' ∷ b'8' ∷ b'9' ∷ b'A' ∷ b'B' ∷ b'C' ∷ b'D'
    ∷ b'E' ∷ b'F' ∷ []

-- The loop from the last place down, with what stands behind place `i`.
unfoldable pub hex_places : (i value : ℕ) → (behind : List ℕ) → List ℕ
hex_places zero value behind = behind
hex_places (suc i) value behind =
    hex_places i (value / 16) (get_or hex_chars (value % 16) 0 ∷ behind)

unfoldable pub uint_to_hex : (value width : ℕ) → List ℕ
uint_to_hex value width = hex_places width value (0 ∷ [])

unfoldable pub uint64_to_hex : (value width : ℕ) → List ℕ
uint64_to_hex value width = hex_places width value (0 ∷ [])

-- The conversion to one case, and the number of a digit; `none` leaves the loop.
unfoldable pub upper : ℕ → ℕ
upper ch = if leb b'a' ch && leb ch b'f' then ch - 0x20 else ch

unfoldable pub digit_number : ℕ → Option ℕ
digit_number ch =
    if leb b'0' ch && leb ch b'9'
    then some (ch - b'0')
    else if leb b'A' ch && leb ch b'F'
    then some (10 + (ch - b'A'))
    else none

abbrev pub get_number : Option ℕ → ℕ
get_number none = 0
get_number (some number) = number

abbrev pub is_digit_of : (base : ℕ) → Option ℕ → Bool
is_digit_of base none = false
is_digit_of base (some number) = not (leb base number)

-- The loop; `none` is a read behind the end of a text that has no terminator.
unfoldable pub read_digits : (source : List ℕ) → (base final_number : ℕ) → Option ℕ
read_digits [] base final_number = none
read_digits (ch ∷ source) base final_number =
    let next = read_digits source base (
      (final_number * base % unsigned_mod + get_number (digit_number (upper ch))) % unsigned_mod) in
    if ch == 0
    then some final_number
    else if is_digit_of base (digit_number (upper ch))
    then next
    else some final_number

unfoldable pub str_to_uint : (source : List ℕ) → (base : ℕ) → Option ℕ
str_to_uint source base = if ltb base 2 || ltb 16 base then some 0 else read_digits source base 0

abbrev pub times : (mult : ℕ) → Option ℕ → Option ℕ
times mult none = none
times mult (some number) = some (number * mult % unsigned_mod)

-- The sign, and the text behind it; -1 is 2 ^ 32 - 1.
unfoldable pub read_sign : List ℕ → Option (ℕ × List ℕ)
read_sign [] = none
read_sign (ch ∷ source) =
    if ch == b'-'
    then some (0xffffffff, source)
    else if ch == b'+'
    then some (1, source)
    else some (1, ch ∷ source)

abbrev pub read_number : Option (ℕ × List ℕ) → (base : ℕ) → Option ℕ
read_number none base = none
read_number (some (mult, source)) base = times mult (str_to_uint source base)

unfoldable pub str_to_int : (source : List ℕ) → (base : ℕ) → Option ℕ
str_to_int source base =
    if ltb base 2 || ltb 16 base then some 0 else read_number (read_sign source) base
