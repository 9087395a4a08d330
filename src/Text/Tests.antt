-- ===== src/Text/Tests.antt =====
-- Runs of the text functions of core/stdlib.cpp.
use juice_os_kernel.Prelude.{ℕ, ◌-◌, ◌≡◌, refl, none, some, List, [], ◌∷◌, ◌++◌, arith, take, over}
use juice_os_kernel.Text.Defs.{
  sprintf, sprintf_consumer, consume_all, append_bytes, overflow_amount,
}
use juice_os_kernel.Text.Output.{concat}
use juice_os_kernel.Text.Strings.{
  to_upper, change_bytes, upper_byte, concat_text, concat_loop, string_length,
}
use juice_os_kernel.Text.Format.{vsprintf, sprintf_format}
use juice_os_kernel.Text.Pieces.{Piece, plain, unsigned, string, source_of, arguments_of, text_of}
use juice_os_kernel.Text.Printing.{vsprintf-text_of, sprintf_format-over}

abbrev four_bytes : List ℕ
four_bytes = 0xAA ∷ 0xAA ∷ 0xAA ∷ 0xAA ∷ []

-- "ab" and "cde" into a buffer of four bytes: three bytes and a terminator.
abbrev two_portions : List (List ℕ)
two_portions = (b'a' ∷ b'b' ∷ []) ∷ (b'c' ∷ b'd' ∷ b'e' ∷ []) ∷ []

sprintf_cut : sprintf four_bytes 4 two_portions ≡ b'a' ∷ b'b' ∷ b'c' ∷ 0 ∷ []
unfolding sprintf consume_all sprintf_consumer append_bytes overflow_amount
sprintf_cut = refl

-- "n=%u%s", with 12 and "ab".
abbrev pieces : List Piece
pieces = plain (b'n' ∷ b'=' ∷ []) ∷ unsigned 12 ∷ string (b'a' ∷ b'b' ∷ []) ∷ []

vsprintf-text_of_example :
    (out : List (List ℕ)) × (vsprintf (source_of pieces ++ (0 ∷ [])) (arguments_of pieces)
      ≡ some out)
    × (concat out ≡ text_of pieces)
vsprintf-text_of_example =
    vsprintf-text_of pieces
      ((ground arith, ground arith, (ground arith, ground arith, tt)), (omega arith, (tt, tt)))

sprintf_format-over_example :
    sprintf_format four_bytes 4 (source_of pieces ++ (0 ∷ [])) (arguments_of pieces)
    ≡ some (over (take (4 - 1) (text_of pieces) ++ (0 ∷ [])) four_bytes)
sprintf_format-over_example =
    sprintf_format-over pieces 4 four_bytes
      ((ground arith, ground arith, (ground arith, ground arith, tt)), (omega arith, (tt, tt)))
      (omega arith) (omega arith)

-- to_upper on another text than its own changes the bytes that stood there.
upper_elsewhere : to_upper 0 2 (b'a' ∷ 0 ∷ b'z' ∷ 0 ∷ []) ≡ b'a' ∷ 0 ∷ b'Z' ∷ 0 ∷ []
unfolding to_upper change_bytes upper_byte
upper_elsewhere = refl

-- A text that is joined to itself has lost its terminator, and the loop runs out of the memory.
concat_itself : concat_text 0 0 (b'a' ∷ 0 ∷ 0 ∷ 0 ∷ []) ≡ none
unfolding concat_text concat_loop string_length
concat_itself = refl
