-- ===== src/Keyboard/Tests.antt =====
-- The keyboard driver at concrete events.
use juice_os_kernel.Prelude.{◌≡◌, refl, inl, inr, true, false, some, [], ◌∷◌, ◌++◌, arith}
use juice_os_kernel.Keyboard.Defs.{
  InArguments, capitalize, shift_punctuation, keyboard_handler, scancode_to_ascii, read_ascii, got,
}
use juice_os_kernel.Keyboard.Modifiers.{shift_after, Tracked, keyboard_handler-Tracked}
use juice_os_kernel.Keyboard.Reading.{shift_behind, read_ascii-typed, read_ascii-repeats}

-- Shift is down, and the last character was an `a`.
abbrev shifted : InArguments
shifted = record {
  capslock = false;
  lshift = true;
  lctrl = false;
  full_buffer = false;
  key_pressed = true;
  key_scancode = 0x1e;
  key_char = b'a';
}

shift_2 : scancode_to_ascii 3 true ≡ some b'@'
unfolding scancode_to_ascii capitalize
shift_2 = refl

shift_slash : scancode_to_ascii 0x35 true ≡ some b'?'
unfolding scancode_to_ascii capitalize shift_punctuation
shift_slash = refl

keyboard_handler-Tracked_example :
    (s' : InArguments) × (keyboard_handler 0xAA shifted ≡ some s') × Tracked 0xAA shifted s'
keyboard_handler-Tracked_example = keyboard_handler-Tracked 0xAA shifted (inr (omega arith))

-- Shift is released, the key `b` is released, and `b` is pressed.
read_ascii-typed_example :
    (s' : InArguments) × (read_ascii true ((0xAA ∷ 0xB0 ∷ []) ++ (0x30 ∷ 0x1e ∷ [])) shifted
      ≡ got b'b' s' (0x1e ∷ []))
    × ((s'.full_buffer ≡ false)
        × (s'.lshift ≡ shift_behind (0xAA ∷ 0xB0 ∷ []) shifted.lshift)
        × (s'.capslock ≡ shifted.capslock))
unfolding scancode_to_ascii shift_after
read_ascii-typed_example =
    read_ascii-typed (0xAA ∷ 0xB0 ∷ []) 0x30 b'b' (0x1e ∷ []) shifted
      (omega arith, (omega arith, tt))
      (omega arith, omega arith, omega arith, omega arith, omega arith) refl (omega arith)

read_ascii-repeats_example :
    (s' : InArguments) × (read_ascii true (0x2A ∷ 0x30 ∷ []) shifted ≡ got b'a' s' (0x30 ∷ []))
read_ascii-repeats_example = read_ascii-repeats 0x2A (0x30 ∷ []) shifted (inl refl) (omega arith)
