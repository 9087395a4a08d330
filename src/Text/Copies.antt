-- ===== src/Text/Copies.antt =====
-- What the copying functions of core/stdlib.cpp write.
use juice_os_kernel.Prelude.{
  ℕ, zero, suc, ◌+◌, ◌≤◌, ◌<◌, ◌≡◌, refl, sym, ap, ◌∙◌, ◌≢◌, inl, inr, false, List, [], ◌∷◌, ◌++◌,
  append_assoc, arith, ◌==◌, if◌then◌else◌, Bool-cases, length, get_or, take, drop, length-append,
  length-take, length-drop, over, length-over, length-take_le, take-over, take-length, take-suc,
  set-take, get_or-drop, take-add, drop-over, take-append,
}
use juice_os_kernel.Text.Defs.{trimmed_length, spaced_string_to_cstr}
use juice_os_kernel.Text.Strlcpy.{AllNonzero, copied}

-- A text without the spaces at its end.
abbrev kept : ℕ → List ℕ → List ℕ
kept x [] = if x == b' ' then [] else x ∷ []
kept x (y ∷ ys) = x ∷ y ∷ ys

abbrev pub strip : List ℕ → List ℕ
strip [] = []
strip (x ∷ xs) = kept x (strip xs)

strip_snoc :
    (xs : List ℕ) (x : ℕ)
    → strip (xs ++ (x ∷ [])) ≡ (if x == b' ' then strip xs else xs ++ (x ∷ []))
strip_snoc [] x = refl
strip_snoc (y ∷ xs) x = elim (Bool-cases (x == b' ')) [
  | inl e ↦ rw (strip_snoc xs x, e) refl
  | inr e ↦ rw (strip_snoc xs x, e) (kept_snoc y xs x)
]
  where
    kept_snoc : (y : ℕ) (xs : List ℕ) (x : ℕ) → kept y (xs ++ (x ∷ [])) ≡ y ∷ (xs ++ (x ∷ []))
    kept_snoc y [] x = refl
    kept_snoc y (z ∷ xs) x = refl

-- The loop of spaced_string_to_cstr finds the end of the stripped text.
pub trimmed_length-strip :
    (target n : ℕ) (memory : List ℕ)
    → target + n ≤ length memory
    → (trimmed_length target n memory ≡ length (strip (take n (drop target memory))))
      × (take (trimmed_length target n memory) (drop target memory)
          ≡ strip (take n (drop target memory)))
unfolding trimmed_length
trimmed_length-strip target zero memory h = (refl, refl)
trimmed_length-strip target (suc n) memory h =
    let room : n < length (drop target memory) = omega (arith, length-drop target memory) in
    let t = take-suc n (drop target memory) 0 room in
    let g = get_or-drop target n memory 0 in
    let l = length-take_le n (drop target memory) (omega arith) in
    elim (Bool-cases (get_or memory (target + n) 0 == b' ')) [
      | inl e ↦
          rw (t, g, strip_snoc (take n (drop target memory)) (get_or memory (target + n) 0), e)
            (trimmed_length-strip target n memory (omega arith))
      | inr e ↦
          rw (t, g, strip_snoc (take n (drop target memory)) (get_or memory (target + n) 0), e)
            (
              omega (
                arith,
                length-append (take n (drop target memory)) (get_or memory (target + n) 0 ∷ []),
              ),
              t ∙ ap (λ (c : ℕ). take n (drop target memory) ++ (c ∷ [])) g,
            )
    ]

length-kept : (x : ℕ) (ys : List ℕ) → length (kept x ys) ≤ suc (length ys)
length-kept x [] = ground arith
length-kept x (y ∷ ys) = omega arith

pub length-strip : (xs : List ℕ) → length (strip xs) ≤ length xs
length-strip [] = omega arith
length-strip (x ∷ xs) = omega (arith, length-kept x (strip xs), length-strip xs)

kept-AllNonzero : (x : ℕ) (ys : List ℕ) → x ≢ 0 → AllNonzero ys → AllNonzero (kept x ys)
kept-AllNonzero x [] h a = elim (Bool-cases (x == b' ')) [ inl e ↦ rw e tt | inr e ↦ rw e (h, tt) ]
kept-AllNonzero x (y ∷ ys) h a = (h, a)

pub strip-AllNonzero : (xs : List ℕ) → AllNonzero xs → AllNonzero (strip xs)
strip-AllNonzero [] a = tt
strip-AllNonzero (x ∷ xs) (h, a) = kept-AllNonzero x (strip xs) h (strip-AllNonzero xs a)

-- The text that a buffer holds up to its terminator.
abbrev pub c_string : List ℕ → List ℕ
c_string [] = []
c_string (ch ∷ text) = if ch == 0 then [] else ch ∷ c_string text

pub c_string-append : (text rest : List ℕ) → AllNonzero text → c_string (text ++ (0 ∷ rest)) ≡ text
c_string-append [] rest a = refl
c_string-append (ch ∷ text) rest (h, a) =
    let nonzero : (ch == 0) ≡ false = ground arith in rw (nonzero, c_string-append text rest a) refl

pub c_string-over :
    (text buffer : List ℕ) → AllNonzero text → c_string (over (text ++ (0 ∷ [])) buffer) ≡ text
unfolding over
c_string-over text buffer a =
    let rest = drop (length (text ++ (0 ∷ []))) buffer in
    ap c_string (append_assoc text (0 ∷ []) rest) ∙ c_string-append text rest a

-- Stripping a segment of the memory leaves the stripped text with its terminator in its place.
pub spaced_string_to_cstr-strip :
    (target n : ℕ) (memory : List ℕ)
    → target + n < length memory
    → let text = strip (take n (drop target memory)) in
      spaced_string_to_cstr target n memory ≡ (copied text target memory, target + length text)
unfolding spaced_string_to_cstr
spaced_string_to_cstr-strip target n memory h =
    let (a, b) = trimmed_length-strip target n memory (omega arith) in
    let short = length-strip (take n (drop target memory)) in
    let l = length-take n (drop target memory) in
    let text = strip (take n (drop target memory)) in
    let front : take (target + length text) memory ≡ take target memory ++ text =
      take-add target (length text) memory
      ∙ ap (take target memory ++◌) (ap (λ (k : ℕ). take k (drop target memory)) (sym a) ∙ b) in
    rw a (
      ap (λ (m : List ℕ). (m, target + length text))
        (set-take memory (target + length text) 0 (omega arith)
          ∙ ap (λ (w : List ℕ). over (w ++ (0 ∷ [])) memory) front
          ∙ ap (λ (w : List ℕ). over w memory) (append_assoc (take target memory) text (0 ∷ []))))

-- Reading what was copied.
pub length-copied :
    (text : List ℕ) (dest : ℕ) (memory : List ℕ)
    → dest + length text < length memory
    → length (copied text dest memory) ≡ length memory
length-copied text dest memory h = length-over (take dest memory ++ (text ++ (0 ∷ []))) memory (
    omega (
      arith,
      length-append (take dest memory) (text ++ (0 ∷ [])),
      length-append text (0 ∷ []),
      length-take_le dest memory (omega arith),
    ))

pub take-copied :
    (text : List ℕ) (dest : ℕ) (memory : List ℕ)
    → dest + length text < length memory
    → take (dest + length text) (copied text dest memory) ≡ take dest memory ++ text
take-copied text dest memory h =
    let w = length-take_le dest memory (omega arith) in
    let front : length (take dest memory ++ text) ≡ dest + length text =
      omega (arith, length-append (take dest memory) text) in
    ap (λ (t : List ℕ). take (dest + length text) (over t memory))
      (sym (append_assoc (take dest memory) text (0 ∷ [])))
    ∙ take-over (dest + length text) ((take dest memory ++ text) ++ (0 ∷ [])) memory
        (omega (arith, length-append (take dest memory ++ text) (0 ∷ [])))
    ∙ take-append (dest + length text) (take dest memory ++ text) (0 ∷ []) (omega arith)
    ∙ ap (λ (k : ℕ). take k (take dest memory ++ text)) (sym front)
    ∙ take-length (take dest memory ++ text)

pub drop-copied :
    (text : List ℕ) (dest : ℕ) (memory : List ℕ)
    → dest + length text < length memory
    → take (length text) (drop dest (copied text dest memory)) ≡ text
drop-copied text dest memory h =
    let w = length-take_le dest memory (omega arith) in
    let back = drop (length (take dest memory ++ (text ++ (0 ∷ [])))) memory in
    ap (λ (k : ℕ). take (length text) (drop k (copied text dest memory))) (sym w)
    ∙ ap (take (length text))
        (drop-over (take dest memory) (text ++ (0 ∷ [])) memory ∙ append_assoc text (0 ∷ []) back)
    ∙ take-append (length text) text (0 ∷ back) (omega arith)
    ∙ take-length text

pub take-copied_before :
    (text : List ℕ) (dest : ℕ) (memory : List ℕ)
    → dest ≤ length memory
    → take dest (copied text dest memory) ≡ take dest memory
take-copied_before text dest memory h =
    let w = length-take_le dest memory h in
    take-over dest (take dest memory ++ (text ++ (0 ∷ []))) memory
      (omega (arith, length-append (take dest memory) (text ++ (0 ∷ []))))
    ∙ take-append dest (take dest memory) (text ++ (0 ∷ [])) (omega arith)
    ∙ ap (λ (k : ℕ). take k (take dest memory)) (sym w)
    ∙ take-length (take dest memory)

pub AllNonzero-append : (xs ys : List ℕ) → AllNonzero xs → AllNonzero ys → AllNonzero (xs ++ ys)
AllNonzero-append [] ys a b = b
AllNonzero-append (x ∷ xs) ys (h, a) b = (h, AllNonzero-append xs ys a b)
