-- ===== src/BitmapAllocator/Runs.antt =====
-- Runs of clear bits in a list of bits: what a first-fit search should find.
use juice_os_kernel.Prelude.{
  ℕ, zero, suc, ◌+◌, ◌-◌, ◌≤◌, ◌<◌, ◌≡◌, refl, ◌∙◌, ◌⊎◌, inl, inr, Bool, true, false, Option, none,
  some, List, [], ◌∷◌, ◌++◌, arith, leb, if◌then◌else◌, dec_le, replicate,
}
use juice_os_kernel.BitmapAllocator.Defs.{no_page}

-- The start of the first run of `page_count` clear bits, `run` clear bits being open at `idx`.
unfoldable pub first_fit : (page_count idx run : ℕ) → List Bool → Option ℕ
first_fit page_count idx run [] = if leb page_count run then some (idx - run) else none
first_fit page_count idx run (b ∷ bs) =
    if leb page_count run
    then some (idx - run)
    else first_fit page_count (idx + 1) (if b then 0 else run + 1) bs

-- What a search that stands at `found` and `start_page` comes to over the bits behind it.
unfoldable pub resume : (page_count idx found start_page : ℕ) → List Bool → Option ℕ
resume page_count idx found start_page rest =
    if leb page_count found then some start_page else first_fit page_count idx found rest

module _ (page_count : ℕ) (pos : 0 < page_count) where
  -- Set bits close the run.
  pub first_fit-ones :
      (t idx run : ℕ) (rest : List Bool)
      → 0 < t
      → run < page_count
      → first_fit page_count idx run (replicate t true ++ rest)
        ≡ first_fit page_count (idx + t) 0 rest
  unfolding first_fit
  first_fit-ones zero idx run rest ht h = absurd (omega arith)
  first_fit-ones (suc zero) idx run rest ht h = ground arith
  first_fit-ones (suc (suc t)) idx run rest ht h =
      let e : idx + suc (suc t) ≡ idx + 1 + suc t = omega arith in
      rw e (ground (arith, first_fit-ones (suc t) (idx + 1) 0 rest))

  pub first_fit-done :
      (idx run : ℕ) (bs : List Bool)
      → page_count ≤ run
      → first_fit page_count idx run bs ≡ some (idx - run)
  unfolding first_fit
  first_fit-done idx run [] h = ground arith
  first_fit-done idx run (b ∷ bs) h = ground arith

  -- Clear bits extend it.
  first_fit-zeros :
      (z idx run : ℕ) (rest : List Bool)
      → run < page_count
      → run ≤ idx
      → first_fit page_count idx run (replicate z false ++ rest)
        ≡ resume page_count (idx + z) (run + z) (idx - run) rest
  unfolding resume first_fit
  first_fit-zeros zero idx run rest h le =
      let e : idx + 0 ≡ idx = omega arith in
      let k : run + 0 ≡ run = omega arith in rw (e, k) (ground arith)
  first_fit-zeros (suc z) idx run rest h le =
      let e : idx + suc z ≡ idx + 1 + z = omega arith in
      let k : run + suc z ≡ run + 1 + z = omega arith in
      let d : idx - run ≡ idx + 1 - (run + 1) = omega arith in
      elim (dec_le page_count (run + 1)) [
        | yes p ↦ ground (arith, first_fit-done (idx + 1) (run + 1) (replicate z false ++ rest))
        | no p ↦ rw (e, k, d) (ground (arith, first_fit-zeros z (idx + 1) (run + 1) rest))
      ]

  pub resume-ones :
      (t idx found start : ℕ) (rest : List Bool)
      → found < page_count
      → 0 < t
      → resume page_count idx found start (replicate t true ++ rest)
        ≡ resume page_count (idx + t) 0 no_page rest
  unfolding resume
  resume-ones t idx found start rest h p = ground (arith, first_fit-ones t idx found rest)

  pub resume-zeros :
      (z idx found start start' : ℕ) (rest : List Bool)
      → start' + found ≡ idx
      → (0 < found → start ≡ start')
      → resume page_count idx found start (replicate z false ++ rest)
        ≡ resume page_count (idx + z) (found + z) start' rest
  unfolding resume
  resume-zeros z idx found start start' rest e same = elim (dec_le page_count found) [
    | yes p ↦ ground (arith, same (omega arith))
    | no p ↦
        let d : idx - found ≡ start' = omega arith in
        let l : leb page_count found ≡ false = ground arith in
        rw l (first_fit-zeros z idx found rest (omega arith) (omega arith) ∙ rw d)
  ]

-- The `count` entries of a list of bits from index `start` on are there, and are `b`.
abbrev pub AllIn : Bool → (start count : ℕ) → List Bool → Type 0
AllIn b start count [] = count ≡ 0
AllIn b zero zero (x ∷ xs) = Unit {0}
AllIn b zero (suc count) (x ∷ xs) = (x ≡ b) × AllIn b 0 count xs
AllIn b (suc start) count (x ∷ xs) = AllIn b start count xs

pub AllIn-zero : (b : Bool) (start : ℕ) (xs : List Bool) → AllIn b start 0 xs
AllIn-zero b start [] = refl
AllIn-zero b zero (x ∷ xs) = tt
AllIn-zero b (suc start) (x ∷ xs) = AllIn-zero b start xs

pred-suc : (n : ℕ) → suc n - 1 ≡ n
pred-suc n = omega arith

-- Where `first_fit` stops, seen from the bits that are left: in the open run, or behind a set bit.
FitsAt : (page_count idx run : ℕ) → List Bool → ℕ → Type 0
FitsAt page_count idx run bs s =
    ((s + run ≡ idx) × AllIn false 0 (page_count - run) bs)
    ⊎ ((idx < s) × AllIn false (s - idx) page_count bs × AllIn true (s - idx - 1) 1 bs)

FitsAt-set :
    (page_count idx run : ℕ) (bs : List Bool) (s : ℕ)
    → 0 < page_count
    → FitsAt page_count (idx + 1) 0 bs s
    → FitsAt page_count idx run (true ∷ bs) s
unfolding FitsAt
FitsAt-set page_count idx run bs s pos (inl (e, h)) =
    let k : s - idx ≡ 1 = omega arith in
    let z : page_count - 0 ≡ page_count = omega arith in
    inr (omega arith, rw k (rw z at h), rw k (refl, AllIn-zero true 0 bs))
FitsAt-set page_count idx run bs s pos (inr (lt, h, g)) =
    let k : s - idx ≡ suc (s - (idx + 1)) = omega arith in
    let j : s - (idx + 1) ≡ suc (s - (idx + 1) - 1) = omega arith in
    inr (omega arith, rw k h, rw (k, pred-suc (s - (idx + 1)), j) g)

FitsAt-clear :
    (page_count idx run : ℕ) (bs : List Bool) (s : ℕ)
    → run < page_count
    → FitsAt page_count (idx + 1) (run + 1) bs s
    → FitsAt page_count idx run (false ∷ bs) s
unfolding FitsAt
FitsAt-clear page_count idx run bs s lt (inl (e, h)) =
    let k : page_count - run ≡ suc (page_count - (run + 1)) = omega arith in
    inl (omega arith, rw k (refl, h))
FitsAt-clear page_count idx run bs s lt (inr (p, h, g)) =
    let k : s - idx ≡ suc (s - (idx + 1)) = omega arith in
    let j : s - (idx + 1) ≡ suc (s - (idx + 1) - 1) = omega arith in
    inr (omega arith, rw k h, rw (k, pred-suc (s - (idx + 1)), j) g)

FitsAt-done :
    (page_count run : ℕ) (bs : List Bool) {A : Type 0}
    → page_count ≤ run
    → A
    → A × AllIn false 0 (page_count - run) bs
FitsAt-done page_count run bs p a =
    let z : page_count - run ≡ 0 = omega arith in (a, rw z (AllIn-zero false 0 bs))

first_fit-FitsAt :
    (page_count idx run : ℕ) (bs : List Bool) (s : ℕ)
    → 0 < page_count
    → run ≤ idx
    → first_fit page_count idx run bs ≡ some s
    → FitsAt page_count idx run bs s
unfolding first_fit FitsAt
first_fit-FitsAt page_count idx run [] s pos le e = inl (ground arith)
first_fit-FitsAt page_count idx run (true ∷ bs) s pos le e = elim (dec_le page_count run) [
  | yes p ↦ inl (FitsAt-done page_count run (true ∷ bs) p (ground arith))
  | no p ↦
      FitsAt-set page_count idx run bs s pos
        (first_fit-FitsAt page_count (idx + 1) 0 bs s pos (omega arith) (ground arith))
]
first_fit-FitsAt page_count idx run (false ∷ bs) s pos le e = elim (dec_le page_count run) [
  | yes p ↦ inl (FitsAt-done page_count run (false ∷ bs) p (ground arith))
  | no p ↦
      FitsAt-clear page_count idx run bs s (omega arith)
        (first_fit-FitsAt page_count (idx + 1) (run + 1) bs s pos (omega arith) (ground arith))
]

-- Clear bits ahead that are enough complete the open run.
first_fit-enough :
    (page_count idx run n : ℕ) (bs : List Bool)
    → run ≤ idx
    → page_count ≤ run + n
    → AllIn false 0 n bs
    → first_fit page_count idx run bs ≡ some (idx - run)
unfolding first_fit
first_fit-enough page_count idx run n [] le h z = ground arith
first_fit-enough page_count idx run zero (b ∷ bs) le h z = ground arith
first_fit-enough page_count idx run (suc n) (b ∷ bs) le h (e, z) =
    ground (arith, first_fit-enough page_count (idx + 1) (run + 1) n bs)

-- The search stops at or before every run that is long enough.
pub first_fit-le :
    (page_count idx run t : ℕ) (bs : List Bool)
    → 0 < page_count
    → run ≤ idx
    → AllIn false t page_count bs
    → (s : ℕ) × (first_fit page_count idx run bs ≡ some s) × (s ≤ idx + t)
unfolding first_fit
first_fit-le page_count idx run t [] pos le h = absurd (omega arith)
first_fit-le page_count idx run zero (b ∷ bs) pos le h = (
  idx - run,
  first_fit-enough page_count idx run page_count (b ∷ bs) le (omega arith) h,
  omega arith,
)
first_fit-le page_count idx run (suc t) (b ∷ bs) pos le h = elim (dec_le page_count run) [
  | yes p ↦ (idx - run, ground arith, omega arith)
  | no p ↦
      let run' : ℕ = if b then 0 else run + 1 in
      let (s, e, l) = first_fit-le page_count (idx + 1) run' t bs pos (ground arith) h in
      (s, ground arith, omega arith)
]

FitsAt-start :
    (page_count : ℕ) (bs : List Bool) (s : ℕ)
    → FitsAt page_count 0 0 bs s
    → AllIn false s page_count bs × ((s ≡ 0) ⊎ AllIn true (s - 1) 1 bs)
unfolding FitsAt
FitsAt-start page_count bs s (inl (e, h)) =
    let z : s ≡ 0 = omega arith in
    let k : page_count - 0 ≡ page_count = omega arith in (rw z (rw k at h), inl z)
FitsAt-start page_count bs s (inr (lt, h, g)) =
    let k : s - 0 ≡ s = omega arith in (rw k at h, inr (rw k at g))

-- A search from the start stops at a run of clear bits in the list that begins at page 0 or
-- behind a set bit.
pub first_fit-free :
    (page_count : ℕ) (bs : List Bool) (s : ℕ)
    → 0 < page_count
    → first_fit page_count 0 0 bs ≡ some s
    → AllIn false s page_count bs × ((s ≡ 0) ⊎ AllIn true (s - 1) 1 bs)
first_fit-free page_count bs s pos e =
    FitsAt-start page_count bs s (first_fit-FitsAt page_count 0 0 bs s pos (omega arith) e)
