-- ===== src/Keyboard/Defs.antt =====
-- The state, the tables and the functions of kps2.
use juice_os_kernel.Prelude.{
  ℕ, ◌-◌, Bool, true, false, not, ◌&&◌, ◌||◌, Option, none, some, List, [], ◌∷◌, leb, ◌==◌,
  if◌then◌else◌, get_elem?,
}

-- `in_arguments`.
pub record InArguments : Type 0 where
  pub capslock : Bool
  pub lshift : Bool
  pub lctrl : Bool
  pub full_buffer : Bool
  pub key_pressed : Bool
  pub key_scancode : ℕ
  pub key_char : ℕ

-- The tables, each with the terminator of its string literal.
abbrev pub numbers_shifted : List ℕ
numbers_shifted = 0x29 ∷ 0x21 ∷ 0x40 ∷ 0x23 ∷ 0x24 ∷ 0x25 ∷ 0x5e ∷ 0x26 ∷ 0x2a ∷ 0x28 ∷ 0 ∷ []

abbrev pub ascii_table : List ℕ
ascii_table =
    0 ∷ 0x1b ∷ 0x31 ∷ 0x32 ∷ 0x33 ∷ 0x34 ∷ 0x35 ∷ 0x36 ∷ 0x37 ∷ 0x38 ∷ 0x39 ∷ 0x30 ∷ 0x2d ∷ 0x3d ∷ 8
    ∷ 9 ∷ 0x71 ∷ 0x77 ∷ 0x65 ∷ 0x72 ∷ 0x74 ∷ 0x79 ∷ 0x75 ∷ 0x69 ∷ 0x6f ∷ 0x70 ∷ 0x5b ∷ 0x5d ∷ 0xa
    ∷ 0 ∷ 0x61 ∷ 0x73 ∷ 0x64 ∷ 0x66 ∷ 0x67 ∷ 0x68 ∷ 0x6a ∷ 0x6b ∷ 0x6c ∷ 0x3b ∷ 0x27 ∷ 0x60 ∷ 0
    ∷ 0x5c ∷ 0x7a ∷ 0x78 ∷ 0x63 ∷ 0x76 ∷ 0x62 ∷ 0x6e ∷ 0x6d ∷ 0x2c ∷ 0x2e ∷ 0x2f ∷ 0 ∷ 0x2a ∷ 0
    ∷ 0x20 ∷ 0 ∷ 0 ∷ 0 ∷ 0 ∷ 0 ∷ 0 ∷ 0 ∷ 0 ∷ 0 ∷ 0 ∷ 0 ∷ 0 ∷ 0 ∷ 0x37 ∷ 0x38 ∷ 0x39 ∷ 0x2d ∷ 0x34
    ∷ 0x35 ∷ 0x36 ∷ 0x2b ∷ 0x31 ∷ 0x32 ∷ 0x33 ∷ 0x30 ∷ 0 ∷ 0 ∷ 0 ∷ 0 ∷ 0 ∷ 0 ∷ 0 ∷ 0 ∷ 0 ∷ 0 ∷ 0 ∷ 0
    ∷ 0 ∷ 0 ∷ 0 ∷ 0 ∷ 0 ∷ 0 ∷ 0 ∷ 0 ∷ 0 ∷ 0 ∷ 0 ∷ 0 ∷ 0 ∷ []

unfoldable pub get_char : InArguments → ℕ × InArguments
get_char s = (s.key_char, record s { full_buffer = false })

unfoldable pub get_scancode : InArguments → ℕ × InArguments
get_scancode s = (s.key_scancode, record s { full_buffer = false })

-- The tests on a punctuation character, one after the other: none of them gives a character that
-- a later one tests for.
unfoldable pub shift_punctuation : ℕ → ℕ
shift_punctuation ascii =
    let a = if ascii == b'=' then b'+' else ascii in
    let b = if a == b'/' then b'?' else a in
    let c = if b == b'-' then b'_' else b in
    let d = if c == b'`' then b'~' else c in
    let e = if d == b'[' then b'{' else d in
    let f = if e == b']' then b'}' else e in
    let g = if f == b';' then b':' else f in
    let h = if g == b'\'' then b'"' else g in
    let k = if h == b',' then b'<' else h in if k == b'.' then b'>' else k

-- `none` is a read behind the end of a table.
unfoldable pub capitalize : ℕ → Option ℕ
capitalize ascii =
    if leb b'a' ascii && leb ascii b'z'
    then some (ascii - 0x20)
    else if leb b'0' ascii && leb ascii b'9'
    then get_elem? numbers_shifted (ascii - 0x30)
    else some (shift_punctuation ascii)

abbrev pub capitalize_if : Bool → Option ℕ → Option ℕ
capitalize_if is_capitalized none = none
capitalize_if true (some ascii) = capitalize ascii
capitalize_if false (some ascii) = some ascii

-- `scancode & (1 << 7)` is the sign of a byte; the test for 0xFA behind it is never reached.
unfoldable pub scancode_to_ascii : (scancode : ℕ) → (is_capitalized : Bool) → Option ℕ
scancode_to_ascii scancode is_capitalized =
    if leb 128 scancode
    then some 0
    else if scancode == 0xFA
    then some 0
    else capitalize_if is_capitalized (get_elem? ascii_table scancode)

abbrev pub set_char : InArguments → Option ℕ → Option InArguments
set_char s none = none
set_char s (some c) = some (record s { key_char = c })

-- `keyboard_handler`, with the byte that port 0x60 gives.
unfoldable pub keyboard_handler : (result : ℕ) → InArguments → Option InArguments
keyboard_handler result s =
    let s' : InArguments = record s {
      key_pressed = not (leb 128 result);
      full_buffer = true;
      key_scancode = result;
    } in
    if (result == 0x2A) || (result == 0x36)
    then some (record s' { lshift = true })
    else if (result == 0xAA) || (result == 0xB6)
    then some (record s' { lshift = false })
    else if result == 0x1D
    then some (record s' { lctrl = true })
    else if result == 0x9D
    then some (record s' { lctrl = false })
    else if result == 0x3A
    then some (record s' { capslock = not s.capslock })
    else set_char s' (scancode_to_ascii result (s.capslock || s.lshift))

-- What a read comes to: a result with the state and the scancodes that are still to come; a wait
-- that the given scancodes do not end; or a read behind the end of a table.
pub data Read (A : Type 0) : Type 0 where
  got : A → InArguments → List ℕ → Read A
  waits : InArguments → Read A
  out_of_bounds : Read A

abbrev pub discard : Bool → InArguments → InArguments
discard true s = record s { full_buffer = false }
discard false s = s

-- The loop of `read_ascii`. A round that does not return lets the next interrupt in.
unfoldable pub ascii_loop : List ℕ → InArguments → Read ℕ
ascii_loop [] s =
    if s.full_buffer && (not (s.key_char == 0) && s.key_pressed)
    then got (get_char s).0 (get_char s).1 []
    else waits s
ascii_loop (scancode ∷ rest) s =
    let later : Read ℕ = elim (keyboard_handler scancode s) [
      | none ↦ out_of_bounds
      | some s' ↦ ascii_loop rest s'
    ] in
    if s.full_buffer && (not (s.key_char == 0) && s.key_pressed)
    then got (get_char s).0 (get_char s).1 (scancode ∷ rest)
    else later

unfoldable pub read_ascii : (discard_queue : Bool) → List ℕ → InArguments → Read ℕ
read_ascii discard_queue scancodes s = ascii_loop scancodes (discard discard_queue s)

-- The loop of `read`. It takes every full buffer, and returns unless it holds a release that is
-- to be ignored; the copy that it returns is made behind the reset of `full_buffer`.
unfoldable pub read_loop : (ignore_releases : Bool) → List ℕ → InArguments → Read InArguments
read_loop ignore_releases [] s =
    let taken : InArguments = record s { full_buffer = false } in
    if s.full_buffer
    then (if ignore_releases && not s.key_pressed then waits taken else got taken taken [])
    else waits s
read_loop ignore_releases (scancode ∷ rest) s =
    let taken : InArguments = record s { full_buffer = false } in
    let later : Read InArguments = elim (keyboard_handler scancode taken) [
      | none ↦ out_of_bounds
      | some s' ↦ read_loop ignore_releases rest s'
    ] in
    if s.full_buffer && not (ignore_releases && not s.key_pressed)
    then got taken taken (scancode ∷ rest)
    else later

unfoldable pub read :
    (ignore_releases discard_queue : Bool) → List ℕ → InArguments → Read InArguments
read ignore_releases discard_queue scancodes s =
    read_loop ignore_releases scancodes (discard discard_queue s)
