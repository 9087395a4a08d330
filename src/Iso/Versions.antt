-- ===== src/Iso/Versions.antt =====
-- The names that convert_iso9660_filename of core/filesystems/iso_9660.cpp gives.
use juice_os_kernel.Prelude.{
  ℕ, suc, ◌+◌, ◌≡◌, refl, sym, ap, ap₂, ◌∙◌, ◌≢◌, false, List, [], ◌∷◌, ◌++◌, append_assoc, arith,
  ◌==◌, length, get_or, take, length-append, take-length, take-append,
}
use juice_os_kernel.Text.Defs.{trimmed_length}
use juice_os_kernel.Iso.Names.{before_version, convert_iso9660_filename}

-- No byte is a semicolon.
abbrev pub IsUnversioned : List ℕ → Type 0
IsUnversioned [] = Unit
IsUnversioned (ch ∷ name) = (ch ≢ b';') × IsUnversioned name

before_version-append :
    (name rest : List ℕ) → IsUnversioned name → before_version (name ++ (b';' ∷ rest)) ≡ name
unfolding before_version
before_version-append [] rest u = refl
before_version-append (ch ∷ name) rest (h, u) =
    let e : (ch == b';') ≡ false = ground arith in rw (e, before_version-append name rest u) refl

get_or-append_length :
    (xs ys : List ℕ) (k d : ℕ) → get_or (xs ++ ys) (length xs + k) d ≡ get_or ys k d
get_or-append_length [] ys k d = let e : 0 + k ≡ k = omega arith in rw e refl
get_or-append_length (x ∷ xs) ys k d =
    let e : suc (length xs) + k ≡ suc (length xs + k) = omega arith in
    rw e (get_or-append_length xs ys k d)

trimmed_all :
    (n : ℕ) (source : List ℕ)
    → get_or source (0 + n) 0 ≡ b'1'
    → trimmed_length 0 (suc n) source ≡ suc n
unfolding trimmed_length
trimmed_all n source e = rw e refl

convert_lem :
    (source : List ℕ) (n : ℕ)
    → get_or source 0 0 ≢ 0
    → get_or source 0 0 ≢ 1
    → convert_iso9660_filename source n ≡ before_version (take (trimmed_length 0 n source) source)
unfolding convert_iso9660_filename
convert_lem source n zero_no one_no =
    let e0 : (get_or source 0 0 == 0) ≡ false = ground arith in
    let e1 : (get_or source 0 0 == 1) ≡ false = ground arith in rw (e0, e1) refl

abbrev version : List ℕ
version = b';' ∷ b'1' ∷ []

take-version :
    (text behind : List ℕ)
    → take (suc (length text + 1)) (text ++ (b';' ∷ b'1' ∷ behind)) ≡ text ++ version
take-version text behind =
    let k : suc (length text + 1) ≡ length (text ++ version) =
      omega (arith, length-append text version) in
    ap₂ (λ (k : ℕ) (xs : List ℕ). take k xs) k (sym (append_assoc text version behind))
    ∙ take-append (length (text ++ version)) (text ++ version) behind (omega arith)
    ∙ take-length (text ++ version)

-- A name of one character at least, of which the first is neither of the bytes that stand for the
-- directory itself and its parent, and none is a semicolon, is what is left of it with the version
-- `;1` behind it, and any bytes behind that.
pub convert_iso9660_filename-version :
    (ch : ℕ) (name behind : List ℕ)
    → ch ≢ 0
    → ch ≢ 1
    → IsUnversioned (ch ∷ name)
    → convert_iso9660_filename (ch ∷ name ++ (b';' ∷ b'1' ∷ behind)) (length (ch ∷ name) + 2)
      ≡ ch ∷ name
convert_iso9660_filename-version ch name behind zero_no one_no u =
    let text : List ℕ = ch ∷ name in
    let source : List ℕ = text ++ (b';' ∷ b'1' ∷ behind) in
    let n : length text + 2 ≡ suc (length text + 1) = omega arith in
    let at : 0 + (length text + 1) ≡ length text + 1 = omega arith in
    let last : get_or source (0 + (length text + 1)) 0 ≡ b'1' =
      ap (λ (k : ℕ). get_or source k 0) at ∙ get_or-append_length text (b';' ∷ b'1' ∷ behind) 1 0 in
    ap (λ (k : ℕ). convert_iso9660_filename source k) n
    ∙ convert_lem source (suc (length text + 1)) zero_no one_no
    ∙ ap (λ (k : ℕ). before_version (take k source)) (trimmed_all (length text + 1) source last)
    ∙ ap before_version (take-version text behind)
    ∙ before_version-append text (b'1' ∷ []) u
