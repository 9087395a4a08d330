-- ===== src/Fat/NameCopies.antt =====
-- The copies that short names are made of in core/filesystems/fat.cpp.
use juice_os_kernel.Prelude.{
  ℕ, zero, suc, ◌+◌, ◌≤◌, ◌<◌, ◌≡◌, refl, sym, ap, ◌∙◌, subst, take-add, List, [], ◌∷◌, ◌++◌,
  append_assoc, arith, ℕ_discrete, length, take, drop, length-drop, over, length-take_le,
}
use juice_os_kernel.Text.Defs.{spaced_string_to_cstr, strlcpy}
use juice_os_kernel.Text.Copies.{
  strip, length-strip, strip-AllNonzero, spaced_string_to_cstr-strip, c_string, c_string-over,
  length-copied, take-copied, drop-copied, take-copied_before, AllNonzero-append,
}
use juice_os_kernel.Text.Strlcpy.{AllNonzero, copied, strlcpy-fits, strlcpy-cuts}
use juice_os_kernel.Fat.Entries.{file_short_name, add_extension, add_dot, other_short_name}

AllNonzero-take :
    (k : ℕ) (xs : List ℕ) (n : ℕ) → k ≤ n → AllNonzero (take n xs) → AllNonzero (take k xs)
AllNonzero-take zero xs n h a = tt
AllNonzero-take (suc k) [] (suc n) h a = tt
AllNonzero-take (suc k) xs zero h a = elim h [ ]
AllNonzero-take (suc k) (x ∷ xs) (suc n) h (b, a) = (b, AllNonzero-take k xs n (omega arith) a)

AllNonzero-drop :
    (k n : ℕ) (xs : List ℕ) → AllNonzero (take (k + n) xs) → AllNonzero (take n (drop k xs))
AllNonzero-drop zero n xs a =
    let e : 0 + n ≡ n = omega arith in subst (λ (i : ℕ). AllNonzero (take i xs)) e a
AllNonzero-drop (suc k) zero [] a = tt
AllNonzero-drop (suc k) (suc n) [] a = tt
AllNonzero-drop (suc k) n (x ∷ xs) a =
    let e : suc k + n ≡ suc (k + n) = omega arith in
    let b : AllNonzero (take (suc (k + n)) (x ∷ xs)) =
      subst (λ (i : ℕ). AllNonzero (take i (x ∷ xs))) e a in
    AllNonzero-drop k n xs b.1

-- The extension is copied with its three bytes, whatever stands behind them.
extension-copied :
    (source : List ℕ) (dest : ℕ) (memory : List ℕ)
    → AllNonzero (take 3 source)
    → 4 ≤ length source
    → dest + 4 ≤ length memory
    → strlcpy source dest 4 memory ≡ (copied (take 3 source) dest memory, 3)
extension-copied (a ∷ b ∷ c ∷ d ∷ rest) dest memory (x, (y, (z, t))) l h = elim (ℕ_discrete d 0) [
  | yes e ↦
      rw e (strlcpy-fits (a ∷ b ∷ c ∷ []) rest dest 4 memory (x, (y, (z, tt))) (omega arith) h)
  | no n ↦ strlcpy-cuts (a ∷ b ∷ c ∷ d ∷ rest) dest 3 memory (x, (y, (z, (n, tt)))) l h
]
extension-copied [] dest memory a l h = elim l [ ]
extension-copied (a ∷ []) dest memory t l h = absurd (omega arith)
extension-copied (a ∷ b ∷ []) dest memory t l h = absurd (omega arith)
extension-copied (a ∷ b ∷ c ∷ []) dest memory t l h = absurd (omega arith)

-- The name and the extension of an entry as texts.
abbrev pub base_name : List ℕ → List ℕ
base_name entry = strip (take 8 entry)

abbrev pub extension : List ℕ → List ℕ
extension entry = strip (take 3 (drop 8 entry))

trimmed_copy :
    (text : List ℕ) (dest n : ℕ) (memory : List ℕ)
    → length text ≡ n
    → dest + n < length memory
    → spaced_string_to_cstr dest n (copied text dest memory)
      ≡ (copied (strip text) dest (copied text dest memory), dest + length (strip text))
trimmed_copy text dest n memory e h =
    let size = length-copied text dest memory (omega arith) in
    let same : take n (drop dest (copied text dest memory)) ≡ text =
      ap (λ (k : ℕ). take k (drop dest (copied text dest memory))) (sym e)
      ∙ drop-copied text dest memory (omega arith) in
    spaced_string_to_cstr-strip dest n (copied text dest memory) (omega arith)
    ∙ ap
        (λ (t : List ℕ). (copied (strip t) dest (copied text dest memory), dest + length (strip t)))
        same

-- What stands before the last copy, and the whole text behind it.
last_copy :
    (front text memory : List ℕ) (dest : ℕ)
    → take dest memory ≡ front
    → AllNonzero front
    → AllNonzero text
    → c_string (copied text dest memory) ≡ front ++ text
last_copy front text memory dest e a b =
    ap (λ (w : List ℕ). c_string (over (w ++ (text ++ (0 ∷ []))) memory)) e
    ∙ ap (λ (w : List ℕ). c_string (over w memory)) (sym (append_assoc front text (0 ∷ [])))
    ∙ c_string-over (front ++ text) memory (AllNonzero-append front text a b)

add_extension-c_string :
    (entry memory front : List ℕ) (at : ℕ)
    → 12 ≤ length entry
    → AllNonzero (take 11 entry)
    → at + 4 ≤ length memory
    → take at memory ≡ front
    → AllNonzero front
    → c_string (add_extension entry at memory) ≡ front ++ extension entry
unfolding add_extension
add_extension-c_string entry memory front at l a h e b =
    let ext = take 3 (drop 8 entry) in
    let long_rest = length-drop 8 entry in
    let long_ext = length-take_le 3 (drop 8 entry) (omega arith) in
    let good = AllNonzero-drop 8 3 entry a in
    ap (λ (p : List ℕ × ℕ). c_string (spaced_string_to_cstr at 3 p.0).0)
      (extension-copied (drop 8 entry) at memory good (omega arith) h)
    ∙ ap (λ (p : List ℕ × ℕ). c_string p.0) (trimmed_copy ext at 3 memory long_ext (omega arith))
    ∙ last_copy front (strip ext) (copied ext at memory) at
        (take-copied_before ext at memory (omega arith) ∙ e) b (strip-AllNonzero ext good)

add_dot-c_string :
    (entry memory front : List ℕ) (at : ℕ)
    → 12 ≤ length entry
    → AllNonzero (take 11 entry)
    → at + 5 ≤ length memory
    → take at memory ≡ front
    → AllNonzero front
    → c_string (add_dot entry (memory, at)) ≡ front ++ (b'.' ∷ extension entry)
unfolding add_dot
add_dot-c_string entry memory front at l a h e b =
    let dotted =
      strlcpy-fits (b'.' ∷ []) [] at 2 memory (omega arith, tt) (omega arith) (omega arith) in
    let size = length-copied (b'.' ∷ []) at memory (omega arith) in
    ap (λ (p : List ℕ × ℕ). c_string (add_extension entry (at + p.1) p.0)) dotted
    ∙ add_extension-c_string entry (copied (b'.' ∷ []) at memory) (front ++ (b'.' ∷ [])) (at + 1) l
        a (omega arith)
        (take-copied (b'.' ∷ []) at memory (omega arith) ∙ ap (λ (w : List ℕ). w ++ (b'.' ∷ [])) e)
        (AllNonzero-append front (b'.' ∷ []) b (omega arith, tt))
    ∙ append_assoc front (b'.' ∷ []) (extension entry)

pub file_short_name-c_string :
    (entry filename_buff : List ℕ)
    → 12 ≤ length entry
    → AllNonzero (take 11 entry)
    → 14 ≤ length filename_buff
    → c_string (file_short_name entry filename_buff) ≡ base_name entry ++ (b'.' ∷ extension entry)
unfolding file_short_name
file_short_name-c_string entry filename_buff l a h =
    let name = take 8 entry in
    let long_name = length-take_le 8 entry (omega arith) in
    let short = length-strip name in
    let m1 = copied name 0 filename_buff in
    let size1 = length-copied name 0 filename_buff (omega arith) in
    let size2 = length-copied (strip name) 0 m1 (omega arith) in
    let nonzero = AllNonzero-take 8 entry 11 (omega arith) a in
    ap (λ (p : List ℕ × ℕ). c_string (add_dot entry (spaced_string_to_cstr 0 8 p.0)))
      (strlcpy-cuts entry 0 8 filename_buff (AllNonzero-take 9 entry 11 (omega arith) a)
        (omega arith) (omega arith))
    ∙ ap (λ (p : List ℕ × ℕ). c_string (add_dot entry p))
        (trimmed_copy name 0 8 filename_buff long_name (omega arith))
    ∙ add_dot-c_string entry (copied (strip name) 0 m1) (strip name) (0 + length (strip name)) l a
        (omega arith) (take-copied (strip name) 0 m1 (omega arith)) (strip-AllNonzero name nonzero)

-- The name and the extension of an entry that is no file, in their places.
other_short_name-copied :
    (entry filename_buff : List ℕ)
    → 12 ≤ length entry
    → AllNonzero (take 11 entry)
    → 14 ≤ length filename_buff
    → let ext = take 3 (drop 8 entry) in
      let extended = copied ext 8 (copied (take 8 entry) 0 filename_buff) in
      (other_short_name entry filename_buff ≡ (spaced_string_to_cstr 0 11 extended).0)
      × (take 11 extended ≡ take 11 entry)
      × (length extended ≡ length filename_buff)
unfolding other_short_name
other_short_name-copied entry filename_buff l a h =
    let name = take 8 entry in
    let ext = take 3 (drop 8 entry) in
    let long_name = length-take_le 8 entry (omega arith) in
    let long_rest = length-drop 8 entry in
    let long_ext = length-take_le 3 (drop 8 entry) (omega arith) in
    let m1 = copied name 0 filename_buff in
    let size1 = length-copied name 0 filename_buff (omega arith) in
    let size2 = length-copied ext 8 m1 (omega arith) in
    let named =
      strlcpy-cuts entry 0 8 filename_buff (AllNonzero-take 9 entry 11 (omega arith) a)
        (omega arith) (omega arith) in
    let extended =
      extension-copied (drop 8 entry) 8 m1 (AllNonzero-drop 8 3 entry a) (omega arith)
        (omega arith) in
    let eleven : 8 + length ext ≡ 11 = omega arith in
    let eight : 0 + length name ≡ 8 = omega arith in
    let front : take 8 m1 ≡ name =
      ap (λ (k : ℕ). take k m1) (sym eight) ∙ take-copied name 0 filename_buff (omega arith) in
    (
      ap (λ (p : List ℕ × ℕ). (spaced_string_to_cstr 0 11 (strlcpy (drop 8 entry) p.1 4 p.0).0).0)
            named
          ∙ ap (λ (p : List ℕ × ℕ). (spaced_string_to_cstr 0 11 p.0).0) extended,
      ap (λ (k : ℕ). take k (copied ext 8 m1)) (sym eleven)
          ∙ take-copied ext 8 m1 (omega arith)
          ∙ ap (λ (w : List ℕ). w ++ ext) front
          ∙ sym (take-add 8 3 entry),
      size2 ∙ size1,
    )

pub other_short_name-c_string :
    (entry filename_buff : List ℕ)
    → 12 ≤ length entry
    → AllNonzero (take 11 entry)
    → 14 ≤ length filename_buff
    → c_string (other_short_name entry filename_buff) ≡ strip (take 11 entry)
other_short_name-c_string entry filename_buff l a h =
    let (e, t, size) = other_short_name-copied entry filename_buff l a h in
    let extended = copied (take 3 (drop 8 entry)) 8 (copied (take 8 entry) 0 filename_buff) in
    ap c_string e
    ∙ ap (λ (p : List ℕ × ℕ). c_string p.0)
        (spaced_string_to_cstr-strip 0 11 extended (omega arith))
    ∙ ap (λ (w : List ℕ). c_string (copied (strip w) 0 extended)) t
    ∙ last_copy [] (strip (take 11 entry)) extended 0 refl tt (strip-AllNonzero (take 11 entry) a)
