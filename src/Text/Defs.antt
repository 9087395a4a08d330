-- ===== src/Text/Defs.antt =====
-- The byte and text functions of core/stdlib.cpp. A pointer is a place in a list of bytes; the callers' buffers hold what is written, and a text is given with or without its terminator.
use juice_os_kernel.Prelude.{
  ℕ, zero, suc, ◌+◌, ◌-◌, ◌%◌, Bool, true, false, ◌&&◌, Option, none, some, List, [], ◌∷◌, ltb, leb,
  ◌==◌, if◌then◌else◌, length, get_or, set,
}

-- Only the comparison reads two lists at once; it reads as far as both are given.
unfoldable pub mem_compare : (first second : List ℕ) → (bytes_amount : ℕ) → Bool
mem_compare first second zero = true
mem_compare [] second (suc n) = false
mem_compare (a ∷ first) [] (suc n) = false
mem_compare (a ∷ first) (b ∷ second) (suc n) =
    let rest = mem_compare first second n in if a == b then rest else false

unfoldable pub mem_fill : (i amount byte : ℕ) → List ℕ → List ℕ
mem_fill i zero byte memory = memory
mem_fill i (suc n) byte memory = mem_fill (i + 1) n byte (set memory i byte)

-- The form with a count of characters, for a buffer that lies at the address `base`. `none` is a
-- write outside of the buffer, or a read behind the source.
unfoldable pub utf16_to_ascii :
    (dest : ℕ)
    → (utf16_str : List ℕ) → (char_count : ℕ) → (base : ℕ) → (buffer : List ℕ) → Option (List ℕ)
utf16_to_ascii dest utf16_str zero base buffer = some buffer
utf16_to_ascii dest [] (suc n) base buffer = none
utf16_to_ascii dest (w ∷ utf16_str) (suc n) base buffer =
    let rest = utf16_to_ascii (dest + 1) utf16_str n base (set buffer (dest - base) (w % 256)) in
    if leb base dest && ltb dest (base + length buffer) then rest else none

-- The loop of `spaced_string_to_cstr`, from the last of `length` places at `target` down.
unfoldable pub trimmed_length : (target length : ℕ) → (memory : List ℕ) → ℕ
trimmed_length target zero memory = 0
trimmed_length target (suc n) memory =
    if get_or memory (target + n) 0 == b' ' then trimmed_length target n memory else suc n

-- The memory, and the place of the terminator that was written.
unfoldable pub spaced_string_to_cstr : (target length : ℕ) → (memory : List ℕ) → List ℕ × ℕ
spaced_string_to_cstr target length memory =
    let ptr = target + trimmed_length target length memory in (set memory ptr 0, ptr)

-- The loop of `strlcpy`, with the bytes that it may still copy and the number of those it did.
unfoldable pub strlcpy_loop :
    (left i : ℕ) → (source : List ℕ) → (dest : ℕ) → (memory : List ℕ) → List ℕ × ℕ
strlcpy_loop zero i source dest memory = (memory, i)
strlcpy_loop (suc left) i [] dest memory = (memory, i)
strlcpy_loop (suc left) i (ch ∷ source) dest memory =
    let rest = strlcpy_loop left (i + 1) source dest (set memory (dest + i) ch) in
    if ch == 0 then (memory, i) else rest

-- The limit of the loop, and the terminator.
unfoldable pub terminate : (max_size dest : ℕ) → List ℕ × ℕ → List ℕ × ℕ
terminate max_size dest (memory, i) =
    let end_index = if i == max_size then i - 1 else i in
    (set memory (dest + end_index) 0, end_index)

-- The memory, and the length of what was copied.
unfoldable pub strlcpy : (source : List ℕ) → (dest max_size : ℕ) → (memory : List ℕ) → List ℕ × ℕ
strlcpy source dest max_size memory =
    if ltb max_size 1
    then (memory, 0)
    else terminate max_size dest (strlcpy_loop max_size 0 source dest memory)

unfoldable pub strcpy : (source : List ℕ) → (dest : ℕ) → (memory : List ℕ) → List ℕ
strcpy [] dest memory = set memory dest 0
strcpy (ch ∷ source) dest memory =
    let rest = strcpy source (dest + 1) (set memory dest ch) in
    if ch == 0 then set memory dest 0 else rest

-- `sprintf`: its buffer, the room without the terminator, and the place of the next byte.
pub record CbackData : Type 0 where
  pub out_buff : List ℕ
  pub max_out_length_no_null_term : ℕ
  pub totally_copied : ℕ

unfoldable pub append_bytes : (n : ℕ) → (portion : List ℕ) → CbackData → CbackData
append_bytes zero portion s = s
append_bytes (suc n) [] s = s
append_bytes (suc n) (ch ∷ portion) s = append_bytes n portion (record s {
  out_buff = set s.out_buff s.totally_copied ch;
  totally_copied = s.totally_copied + 1;
})

-- The bytes of a portion that do not fit. The space that is left is never below zero.
unfoldable pub overflow_amount : (portion_length : ℕ) → CbackData → ℕ
overflow_amount portion_length s =
    portion_length - (s.max_out_length_no_null_term - s.totally_copied)

unfoldable pub sprintf_consumer : (portion : List ℕ) → CbackData → CbackData
sprintf_consumer portion s =
    append_bytes (length portion - overflow_amount (length portion) s) portion s

unfoldable pub consume_all : List (List ℕ) → CbackData → CbackData
consume_all [] s = s
consume_all (portion ∷ portions) s = consume_all portions (sprintf_consumer portion s)

-- `sprintf`, with the portions that `vsprintf` hands on. The buffer has one byte at least.
unfoldable pub sprintf :
    (out_buff : List ℕ) → (max_out_length : ℕ) → (portions : List (List ℕ)) → List ℕ
sprintf out_buff max_out_length portions =
    let s = consume_all portions (record {
      out_buff = out_buff;
      max_out_length_no_null_term = max_out_length - 1;
      totally_copied = 0;
    }) in
    if leb 1 (max_out_length - s.totally_copied)
    then set s.out_buff s.totally_copied 0
    else s.out_buff

-- `string::compare`, of texts without their terminators: first the lengths, then the bytes.
unfoldable pub bytes_equal : (first second : List ℕ) → Bool
bytes_equal [] second = true
bytes_equal (a ∷ first) [] = false
bytes_equal (a ∷ first) (b ∷ second) =
    let rest = bytes_equal first second in if a == b then rest else false

unfoldable pub text_equal : (first second : List ℕ) → Bool
text_equal first second = if length first == length second then bytes_equal first second else false
