-- ===== src/Keyboard/Modifiers.antt =====
-- What the interrupt handler of core/drivers/ps2.cpp does with the modifier keys, and which scancodes it can take.
use juice_os_kernel.Prelude.{
  ℕ, zero, suc, ◌≤◌, ◌<◌, ◌≡◌, refl, ◌≢◌, ◌⊎◌, inl, inr, Bool, true, false, not, ◌||◌, Option, none,
  some, List, [], ◌∷◌, arith, leb, ◌==◌, if◌then◌else◌, Bool-cases, length, get_elem?, all_below,
  all_below-at,
}
use juice_os_kernel.Keyboard.Defs.{
  InArguments, ascii_table, shift_punctuation, capitalize, capitalize_if, scancode_to_ascii,
  keyboard_handler,
}

-- Whether a Shift key is down after an event: 0x2A and 0x36 press one, 0xAA and 0xB6 release one.
unfoldable pub shift_after : ℕ → Bool → Bool
shift_after event was_down =
    if (event == 0x2A) || (event == 0x36)
    then true
    else if (event == 0xAA) || (event == 0xB6)
    then false
    else was_down

unfoldable pub ctrl_after : ℕ → Bool → Bool
ctrl_after event was_down =
    if event == 0x1D then true else if event == 0x9D then false else was_down

unfoldable pub caps_after : ℕ → Bool → Bool
caps_after event was_on = if event == 0x3A then not was_on else was_on

-- An event for which the driver has an entry in its tables.
abbrev pub IsKnown : ℕ → Type 0
IsKnown event = (event < 108) ⊎ (128 ≤ event)

abbrev is_answer : Option ℕ → Bool
is_answer none = false
is_answer (some _) = true

answer : (o : Option ℕ) → is_answer o ≡ true → (c : ℕ) × (o ≡ some c)
answer none e = (0, ground arith)
answer (some c) e = (c, refl)

in_tables :
    (b : Bool)
    → all_below 108 (λ event. is_answer (capitalize_if b (get_elem? ascii_table event))) ≡ true
unfolding all_below capitalize shift_punctuation
in_tables true = refl
in_tables false = refl

pub scancode_to_ascii-some :
    (event : ℕ) (b : Bool) → IsKnown event → (c : ℕ) × (scancode_to_ascii event b ≡ some c)
unfolding scancode_to_ascii
scancode_to_ascii-some event b (inr h) = (0, ground arith)
scancode_to_ascii-some event b (inl h) =
    let below : leb 128 event ≡ false = ground arith in
    let other : (event == 0xFA) ≡ false = ground arith in
    let (c, e) = answer _ (
      all_below-at (λ event. is_answer (capitalize_if b (get_elem? ascii_table event))) event 108 h
        (in_tables b)) in
    (c, rw (below, other, e))

abbrev pub Tracked : ℕ → InArguments → InArguments → Type 0
Tracked event s s' =
    (s'.lshift ≡ shift_after event s.lshift)
    × (s'.lctrl ≡ ctrl_after event s.lctrl)
    × (s'.capslock ≡ caps_after event s.capslock)
    × (s'.key_scancode ≡ event)
    × (s'.key_pressed ≡ not (leb 128 event))
    × (s'.full_buffer ≡ true)

-- Each event below 108 or from 128 on is taken: behind it the three modifier flags are what the
-- modifier keys make them, and the buffer is full and holds the event and whether it is a press.
pub keyboard_handler-Tracked :
    (event : ℕ) (s : InArguments)
    → IsKnown event
    → (s' : InArguments) × (keyboard_handler event s ≡ some s') × Tracked event s s'
unfolding keyboard_handler shift_after ctrl_after caps_after
keyboard_handler-Tracked event s h =
    let (c, e) = scancode_to_ascii-some event (s.capslock || s.lshift) h in
    let s1 : InArguments = record s {
      key_pressed = not (leb 128 event);
      full_buffer = true;
      key_scancode = event;
    } in
    elim (Bool-cases ((event == 0x2A) || (event == 0x36))) [
      | inl p ↦ (
        record s1 { lshift = true },
        rw p refl,
        (ground arith, ground arith, ground arith, refl, refl, refl),
      )
      | inr p ↦ elim (Bool-cases ((event == 0xAA) || (event == 0xB6))) [
        | inl q ↦ (
          record s1 { lshift = false },
          rw (p, q) refl,
          (ground arith, ground arith, ground arith, refl, refl, refl),
        )
        | inr q ↦ elim (Bool-cases (event == 0x1D)) [
          | inl r ↦ (
            record s1 { lctrl = true },
            rw (p, q, r) refl,
            (ground arith, ground arith, ground arith, refl, refl, refl),
          )
          | inr r ↦ elim (Bool-cases (event == 0x9D)) [
            | inl u ↦ (
              record s1 { lctrl = false },
              rw (p, q, r, u) refl,
              (ground arith, ground arith, ground arith, refl, refl, refl),
            )
            | inr u ↦ elim (Bool-cases (event == 0x3A)) [
              | inl v ↦ (
                record s1 { capslock = not s.capslock },
                rw (p, q, r, u, v) refl,
                (ground arith, ground arith, ground arith, refl, refl, refl),
              )
              | inr v ↦ (
                record s1 { key_char = c },
                rw (p, q, r, u, v, e) refl,
                (ground arith, ground arith, ground arith, refl, refl, refl),
              )
            ]
          ]
        ]
      ]
    ]

-- `keyboard_handler` has no answer for the scancodes from 108 to 127, which `ascii_table` does not
-- reach and which are no modifier key: the code reads behind the table.
pub keyboard_handler-none :
    (event : ℕ) (s : InArguments) → 108 ≤ event → event < 128 → keyboard_handler event s ≡ none
unfolding keyboard_handler scancode_to_ascii
keyboard_handler-none event s l h =
    rw
      (
        differs event 0x2A (omega arith),
        differs event 0x36 (omega arith),
        differs event 0xAA (omega arith),
        differs event 0xB6 (omega arith),
        differs event 0x1D (omega arith),
        differs event 0x9D (omega arith),
        differs event 0x3A (omega arith),
        differs event 0xFA (omega arith),
        pressed,
        get_elem?-beyond ascii_table event l,
      )
      refl
  where
    differs : (x y : ℕ) → x ≢ y → (x == y) ≡ false
    differs x y n = ground arith

    pressed : leb 128 event ≡ false
    pressed = ground arith

    get_elem?-beyond : (xs : List ℕ) (i : ℕ) → length xs ≤ i → get_elem? xs i ≡ none
    get_elem?-beyond [] i h = refl
    get_elem?-beyond (x ∷ xs) zero h = elim h [ ]
    get_elem?-beyond (x ∷ xs) (suc i) h = get_elem?-beyond xs i (omega arith)
