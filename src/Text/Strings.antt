-- ===== src/Text/Strings.antt =====
-- The string class of core/string.cpp, on a memory of bytes: a string is the place of its first byte.
use juice_os_kernel.Prelude.{
  ℕ, zero, suc, ◌+◌, ◌-◌, ◌%◌, ◌&&◌, ◌||◌, Option, none, some, List, [], ◌∷◌, leb, ◌==◌,
  if◌then◌else◌, length, get_or, set, drop,
}

-- Bytes are read to the end of the memory, and are zero behind it.
unfoldable pub string_length : (pointer : List ℕ) → ℕ
string_length [] = 0
string_length (ch ∷ pointer) = let rest = string_length pointer in if ch == 0 then 0 else suc rest

-- The byte that `to_upper` leaves in the destination, from its old byte and the byte of the source.
unfoldable pub upper_byte : (ch old : ℕ) → ℕ
upper_byte ch old = if leb b'a' ch && leb ch b'z' then (old + 0x100 - 0x20) % 0x100 else ch

unfoldable pub lower_byte : (ch old : ℕ) → ℕ
lower_byte ch old = if leb b'A' ch && leb ch b'Z' then (old + 0x20) % 0x100 else ch

-- The loops of `to_upper` and `to_lower`, on so many rounds. The texts may share their bytes.
unfoldable pub change_bytes :
    (change : ℕ → ℕ → ℕ) → (rounds i pointer destination : ℕ) → (memory : List ℕ) → List ℕ
change_bytes change zero i pointer destination memory = memory
change_bytes change (suc n) i pointer destination memory =
    let ch = get_or memory (pointer + i) 0 in
    let rest =
      change_bytes change n (i + 1) pointer destination
        (set memory (destination + i) (change ch (get_or memory (destination + i) 0))) in
    if ch == 0 then memory else rest

unfoldable pub to_upper : (pointer destination : ℕ) → (memory : List ℕ) → List ℕ
to_upper pointer destination memory =
    change_bytes upper_byte (length memory) 0 pointer destination memory

unfoldable pub to_lower : (pointer destination : ℕ) → (memory : List ℕ) → List ℕ
to_lower pointer destination memory =
    change_bytes lower_byte (length memory) 0 pointer destination memory

-- The second loop of `concat` and the terminator; `none` is an access behind the memory, or a loop
-- that goes on after its rounds.
unfoldable pub concat_loop : (rounds i i2 pointer from : ℕ) → (memory : List ℕ) → Option (List ℕ)
concat_loop zero i i2 pointer from memory = none
concat_loop (suc n) i i2 pointer from memory =
    let ch = get_or memory (from + i2) 0 in
    let rest = concat_loop n (i + 1) (i2 + 1) pointer from (set memory (pointer + i) ch) in
    if leb (length memory) (pointer + i) || leb (length memory) (from + i2)
    then none
    else if ch == 0
    then some (set memory (pointer + i) 0)
    else rest

unfoldable pub concat_text : (pointer from : ℕ) → (memory : List ℕ) → Option (List ℕ)
concat_text pointer from memory =
    concat_loop (length memory + 1) (string_length (drop pointer memory)) 0 pointer from memory
