-- ===== src/Text/Strlcpy.antt =====
-- What strlcpy of core/stdlib.cpp leaves in its buffer.
use juice_os_kernel.Prelude.{
  ℕ, zero, suc, ◌+◌, ◌-◌, ◌≤◌, ◌<◌, ◌≡◌, refl, sym, ap, ◌∙◌, ◌≢◌, true, false, List, [], ◌∷◌, ◌++◌,
  append-nil, append_assoc, arith, ltb, ◌==◌, length, get_or, set, take, length-append, over,
  set-over, over-take, length-take_le, take-suc, set-over_last,
}
use juice_os_kernel.Text.Defs.{strlcpy_loop, terminate, strlcpy}

-- A text of bytes other than zero.
abbrev pub AllNonzero : List ℕ → Type 0
AllNonzero [] = Unit {0}
AllNonzero (ch ∷ text) = (ch ≢ 0) × AllNonzero text

strlcpy_loop-over :
    (left i dest : ℕ) (source memory written : List ℕ)
    → length written ≡ dest + i
    → dest + i + left ≤ length memory
    → left ≤ length source
    → AllNonzero (take left source)
    → strlcpy_loop left i source dest (over written memory)
      ≡ (over (written ++ take left source) memory, i + left)
unfolding strlcpy_loop
strlcpy_loop-over zero i dest source memory written e h l a =
    let s : i + 0 ≡ i = omega arith in rw (append-nil written, s) refl
strlcpy_loop-over (suc left) i dest [] memory written e h l a = elim l [ ]
strlcpy_loop-over (suc left) i dest (ch ∷ source) memory written e h l (n, a) =
    let nonzero : (ch == 0) ≡ false = ground arith in
    let w : length (written ++ (ch ∷ [])) ≡ dest + (i + 1) =
      omega (arith, length-append written (ch ∷ [])) in
    let s : set (over written memory) (dest + i) ch ≡ over (written ++ (ch ∷ [])) memory =
      set-over written memory (dest + i) ch (sym e) (omega arith) in
    let c : i + suc left ≡ i + 1 + left = omega arith in
    rw (nonzero, s, c, ← append_assoc written (ch ∷ []) (take left source))
      (strlcpy_loop-over left (i + 1) dest source memory (written ++ (ch ∷ [])) w (omega arith)
        (omega arith) a)

strlcpy_loop_stops :
    (left i dest : ℕ) (text rest memory written : List ℕ)
    → length written ≡ dest + i
    → dest + i + left ≤ length memory
    → length text < left
    → AllNonzero text
    → strlcpy_loop left i (text ++ (0 ∷ rest)) dest (over written memory)
      ≡ (over (written ++ text) memory, i + length text)
unfolding strlcpy_loop
strlcpy_loop_stops zero i dest text rest memory written e h l a = elim l [ ]
strlcpy_loop_stops (suc left) i dest [] rest memory written e h l a =
    let s : i + 0 ≡ i = omega arith in rw (append-nil written, s) refl
strlcpy_loop_stops (suc left) i dest (ch ∷ text) rest memory written e h l (n, a) =
    let nonzero : (ch == 0) ≡ false = ground arith in
    let w : length (written ++ (ch ∷ [])) ≡ dest + (i + 1) =
      omega (arith, length-append written (ch ∷ [])) in
    let s : set (over written memory) (dest + i) ch ≡ over (written ++ (ch ∷ [])) memory =
      set-over written memory (dest + i) ch (sym e) (omega arith) in
    let c : i + suc (length text) ≡ i + 1 + length text = omega arith in
    rw (nonzero, s, c, ← append_assoc written (ch ∷ []) text)
      (strlcpy_loop_stops left (i + 1) dest text rest memory (written ++ (ch ∷ [])) w (omega arith)
        (omega arith) a)

-- What a call of strlcpy leaves behind `dest`.
abbrev pub copied : (text : List ℕ) → (dest : ℕ) → List ℕ → List ℕ
copied text dest memory = over (take dest memory ++ (text ++ (0 ∷ []))) memory

-- The text fits.
pub strlcpy-fits :
    (text rest : List ℕ) (dest max_size : ℕ) (memory : List ℕ)
    → AllNonzero text
    → length text < max_size
    → dest + max_size ≤ length memory
    → strlcpy (text ++ (0 ∷ rest)) dest max_size memory ≡ (copied text dest memory, length text)
unfolding strlcpy terminate
strlcpy-fits text rest dest max_size memory a l h =
    let start = over-take dest memory (omega arith) in
    let w = length-take_le dest memory (omega arith) in
    let some_room : ltb max_size 1 ≡ false = ground arith in
    let loop : strlcpy_loop max_size 0 (text ++ (0 ∷ rest)) dest memory
        ≡ (over (take dest memory ++ text) memory, 0 + length text) =
      ap (strlcpy_loop max_size 0 (text ++ (0 ∷ rest)) dest) (sym start)
      ∙ strlcpy_loop_stops max_size 0 dest text rest memory (take dest memory) (omega arith)
          (omega arith) l a in
    let zeroed : 0 + length text ≡ length text = omega arith in
    let inside : (length text == max_size) ≡ false = ground arith in
    rw (some_room, loop, zeroed, inside)
      (ap (λ (m : List ℕ). (m, length text))
        (set-over (take dest memory ++ text) memory (dest + length text) 0
            (omega (arith, length-append (take dest memory) text)) (omega arith)
          ∙ ap (λ (t : List ℕ). over t memory) (append_assoc (take dest memory) text (0 ∷ []))))

-- The source is longer than what may be copied: the last byte copied gives way to the terminator.
pub strlcpy-cuts :
    (source : List ℕ) (dest max_size : ℕ) (memory : List ℕ)
    → AllNonzero (take (suc max_size) source)
    → suc max_size ≤ length source
    → dest + suc max_size ≤ length memory
    → strlcpy source dest (suc max_size) memory
      ≡ (copied (take max_size source) dest memory, max_size)
unfolding strlcpy terminate
strlcpy-cuts source dest max_size memory a l h =
    let start = over-take dest memory (omega arith) in
    let w = length-take_le dest memory (omega arith) in
    let t = length-take_le max_size source (omega arith) in
    let last = get_or source max_size 0 in
    let zeroed : 0 + suc max_size ≡ suc max_size = omega arith in
    let some_room : ltb (suc max_size) 1 ≡ false = ground arith in
    let loop : strlcpy_loop (suc max_size) 0 source dest memory
        ≡ (over (take dest memory ++ take (suc max_size) source) memory, suc max_size) =
      ap (strlcpy_loop (suc max_size) 0 source dest) (sym start)
      ∙ strlcpy_loop-over (suc max_size) 0 dest source memory (take dest memory) (omega arith)
          (omega arith) l a
      ∙ ap (λ (i : ℕ). (over (take dest memory ++ take (suc max_size) source) memory, i)) zeroed in
    let whole : take dest memory ++ take (suc max_size) source
        ≡ (take dest memory ++ take max_size source) ++ (last ∷ []) =
      ap (take dest memory ++◌) (take-suc max_size source 0 (omega arith))
      ∙ sym (append_assoc (take dest memory) (take max_size source) (last ∷ [])) in
    let at_end : (suc max_size == suc max_size) ≡ true = ground arith in
    let back : suc max_size - 1 ≡ max_size = omega arith in
    rw (some_room, loop, at_end, back)
      (ap (λ (m : List ℕ). (m, max_size))
        (ap (λ (t : List ℕ). set (over t memory) (dest + max_size) 0) whole
          ∙ (set-over_last (take dest memory ++ take max_size source) memory (dest + max_size) last
                0 (omega (arith, length-append (take dest memory) (take max_size source)))
              ∙ ap (λ (t : List ℕ). over t memory)
                  (append_assoc (take dest memory) (take max_size source) (0 ∷ [])))))
