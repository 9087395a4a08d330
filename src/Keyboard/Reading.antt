-- ===== src/Keyboard/Reading.antt =====
-- What read_ascii of core/drivers/ps2.cpp returns.
use juice_os_kernel.Prelude.{
  ℕ, ◌≤◌, ◌<◌, ◌≡◌, refl, ap, ◌∙◌, subst, ◌≢◌, ◌⊎◌, inl, inr, Bool, true, false, not, ◌&&◌, ◌||◌,
  some, List, [], ◌∷◌, ◌++◌, arith, leb, ◌==◌,
}
use juice_os_kernel.Keyboard.Defs.{
  InArguments, scancode_to_ascii, keyboard_handler, get_char, ascii_loop, read_ascii, got,
}
use juice_os_kernel.Keyboard.Modifiers.{shift_after, caps_after, keyboard_handler-Tracked}

abbrev pub AllReleases : List ℕ → Type 0
AllReleases [] = Unit {0}
AllReleases (e ∷ es) = (128 ≤ e) × AllReleases es

-- Whether Shift is down behind a sequence of events.
abbrev pub shift_behind : List ℕ → Bool → Bool
shift_behind [] b = b
shift_behind (e ∷ es) b = shift_behind es (shift_after e b)

abbrev is_ready : InArguments → Bool
is_ready s = s.full_buffer && (not (s.key_char == 0) && s.key_pressed)

ascii_loop-passes :
    (e : ℕ) (rest : List ℕ) (s s' : InArguments)
    → is_ready s ≡ false
    → keyboard_handler e s ≡ some s'
    → ascii_loop (e ∷ rest) s ≡ ascii_loop rest s'
unfolding ascii_loop
ascii_loop-passes e rest s s' i h = rw (i, h) refl

ascii_loop-takes :
    (rest : List ℕ) (s : InArguments)
    → is_ready s ≡ true
    → ascii_loop rest s ≡ got s.key_char (record s { full_buffer = false }) rest
unfolding ascii_loop get_char
ascii_loop-takes [] s i = rw i refl
ascii_loop-takes (e ∷ rest) s i = rw i refl

ready-released : (s : InArguments) → s.key_pressed ≡ false → is_ready s ≡ false
ready-released s e = ground arith

releases-passed :
    (es rest : List ℕ) (s : InArguments)
    → is_ready s ≡ false
    → AllReleases es
    → (s' : InArguments) × (ascii_loop (es ++ rest) s ≡ ascii_loop rest s')
      × ((is_ready s' ≡ false)
          × (s'.lshift ≡ shift_behind es s.lshift)
          × (s'.capslock ≡ s.capslock))
releases-passed [] rest s i h = (s, refl, (i, refl, refl))
releases-passed (e ∷ es) rest s i (h, hs) =
    let (s1, t, (l, k, c, sc, p, f)) = keyboard_handler-Tracked e s (inr h) in
    let up : leb 128 e ≡ true = ground arith in
    let (s2, t2, (i2, l2, c2)) =
      releases-passed es rest s1 (ready-released s1 (p ∙ ap not up)) hs in
    let same : caps_after e s.capslock ≡ s.capslock = unfold caps_after in ground arith in
    (
      s2,
      ascii_loop-passes e (es ++ rest) s s1 i t ∙ t2,
      (i2, l2 ∙ ap (shift_behind es) l, c2 ∙ (c ∙ same)),
    )

-- A key with an entry in `ascii_table` that is no modifier key.
abbrev pub IsPlain : ℕ → Type 0
IsPlain event = (event < 108) × (event ≢ 0x2A) × (event ≢ 0x36) × (event ≢ 0x1D) × (event ≢ 0x3A)

-- The state behind a plain key that gives the character `c`.
abbrev pub typed : ℕ → ℕ → InArguments → InArguments
typed event c s = record s {
  key_pressed = true;
  full_buffer = true;
  key_scancode = event;
  key_char = c;
}

keyboard_handler-typed :
    (event c : ℕ) (s : InArguments)
    → IsPlain event
    → scancode_to_ascii event (s.capslock || s.lshift) ≡ some c
    → keyboard_handler event s ≡ some (typed event c s)
unfolding keyboard_handler
keyboard_handler-typed event c s (l, a, b, d, f) e =
    rw
      (
        differs event 0x2A a,
        differs event 0x36 b,
        differs event 0xAA (omega arith),
        differs event 0xB6 (omega arith),
        differs event 0x1D d,
        differs event 0x9D (omega arith),
        differs event 0x3A f,
        e,
        pressed,
      )
      refl
  where
    differs : (x y : ℕ) → x ≢ y → (x == y) ≡ false
    differs x y n = ground arith

    pressed : leb 128 event ≡ false
    pressed = ground arith

-- A read that discards what came before, on any number of key releases and then a key that is no
-- modifier and has a character: it returns that key's character, capital as the lock and the Shift
-- key behind the releases say, with the buffer empty and the later events still to come.
pub read_ascii-typed :
    (es : List ℕ) (event c : ℕ) (rest : List ℕ) (s : InArguments)
    → AllReleases es
    → IsPlain event
    → scancode_to_ascii event (s.capslock || shift_behind es s.lshift) ≡ some c
    → c ≢ 0
    → (s' : InArguments) × (read_ascii true (es ++ (event ∷ rest)) s ≡ got c s' rest)
      × ((s'.full_buffer ≡ false)
          × (s'.lshift ≡ shift_behind es s.lshift)
          × (s'.capslock ≡ s.capslock))
unfolding read_ascii
read_ascii-typed es event c rest s h p e n =
    let (s1, t, (i, l, k)) =
      releases-passed es (event ∷ rest) (record s { full_buffer = false }) refl h in
    let ready : is_ready (typed event c s1) ≡ true = ground arith in
    let typing : keyboard_handler event s1 ≡ some (typed event c s1) =
      keyboard_handler-typed event c s1 p (rw (k, l) e) in
    (
      record (typed event c s1) { full_buffer = false },
      t
          ∙ (ascii_loop-passes event rest s1 (typed event c s1) i typing
              ∙ ascii_loop-takes rest (typed event c s1) ready),
      (refl, l, k),
    )

abbrev pub IsModifier : ℕ → Type 0
IsModifier event = (event ≡ 0x2A) ⊎ ((event ≡ 0x36) ⊎ ((event ≡ 0x1D) ⊎ (event ≡ 0x3A)))

-- The state behind a modifier key that is pressed, apart from its flag.
abbrev noted : ℕ → InArguments → InArguments
noted event s = record s { key_pressed = true; full_buffer = true; key_scancode = event }

abbrev Keeps : ℕ → InArguments → InArguments → Type 0
Keeps event s s1 =
    (keyboard_handler event s ≡ some s1)
    × (s1.key_char ≡ s.key_char)
    × (s1.full_buffer ≡ true)
    × (s1.key_pressed ≡ true)

modifier-Keeps :
    (event : ℕ) (s : InArguments) → IsModifier event → (s1 : InArguments) × Keeps event s s1
unfolding keyboard_handler
modifier-Keeps event s (inl e) =
    (record (noted event s) { lshift = true }, (rw e refl, refl, refl, refl))
modifier-Keeps event s (inr (inl e)) =
    (record (noted event s) { lshift = true }, (rw e refl, refl, refl, refl))
modifier-Keeps event s (inr (inr (inl e))) =
    (record (noted event s) { lctrl = true }, (rw e refl, refl, refl, refl))
modifier-Keeps event s (inr (inr (inr e))) =
    (record (noted event s) { capslock = not s.capslock }, (rw e refl, refl, refl, refl))

-- A read with an empty buffer behind an earlier character key, of which the next event is the press
-- of Shift, Ctrl or Caps Lock, returns the earlier key's character again.
pub read_ascii-repeats :
    (event : ℕ) (rest : List ℕ) (s : InArguments)
    → IsModifier event
    → s.key_char ≢ 0
    → (s' : InArguments) × (read_ascii true (event ∷ rest) s ≡ got s.key_char s' rest)
unfolding read_ascii
read_ascii-repeats event rest s m n =
    let (s1, (t, c, f, p)) = modifier-Keeps event (record s { full_buffer = false }) m in
    let ready : is_ready s1 ≡ true = ground arith in
    (
      record s1 { full_buffer = false },
      subst
          (λ k.
            ascii_loop (event ∷ rest) (record s { full_buffer = false })
            ≡ got k (record s1 { full_buffer = false }) rest)
          c (ascii_loop-passes event rest _ s1 refl t ∙ ascii_loop-takes rest s1 ready),
    )
