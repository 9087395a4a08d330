-- ===== src/Heap/FirstFit.antt =====
-- The search of a block, and the header of one that is in use.
use juice_os_kernel.Prelude.{
  ℕ, zero, suc, ◌+◌, ◌-◌, ◌^◌, ◌≤◌, ◌<◌, ◌≡◌, refl, ap, ap₂, ◌∙◌, ◌⊎◌, inl, inr, true, false,
  Option, none, some, [], ◌∷◌, ◌++◌, arith, ltb, leb, if◌then◌else◌, Bool-cases, length,
}
use juice_os_kernel.Heap.Memory.{
  Memory, read_word, write_word, write_word-other, read_word-write_word, read_word-write_word_other,
}
use juice_os_kernel.Heap.Defs.{
  null, ok, entry_next, find_suitable, write_header, alloc_header_checksum,
}
use juice_os_kernel.Heap.Chains.{
  Blocks, Inside, Chain, Inside-weaken, last_of, Chain-write, Chain-append, Chain-split,
}
use juice_os_kernel.Heap.Links.{IsFreeList}

-- The first block that is large enough.
abbrev pub fit_at : (wanted : ℕ) → Blocks → Option (ℕ × ℕ)
fit_at wanted [] = none
fit_at wanted ((a, s) ∷ bs) =
    let rest = fit_at wanted bs in if leb wanted s then some (a, s) else rest

-- What is taken of it: all of it, when less than an entry would be left.
abbrev pub taken : (wanted size : ℕ) → ℕ
taken wanted size = if ltb (size - wanted) 12 then size else wanted

abbrev pub left_of : (wanted a s : ℕ) → Blocks → Blocks
left_of wanted a s bs = if ltb (s - wanted) 12 then bs else (a + wanted, s - wanted) ∷ bs

-- The blocks without what is taken.
abbrev pub without : (wanted : ℕ) → Blocks → Blocks
without wanted [] = []
without wanted ((a, s) ∷ bs) =
    let rest = without wanted bs in if leb wanted s then left_of wanted a s bs else (a, s) ∷ rest

pub fit_at-split :
    (wanted : ℕ) (bs : Blocks) (a s : ℕ)
    → fit_at wanted bs ≡ some (a, s)
    → (xs : Blocks) × (ys : Blocks) × (bs ≡ xs ++ ((a, s) ∷ ys))
      × (wanted ≤ s)
      × (without wanted bs ≡ xs ++ left_of wanted a s ys)
fit_at-split wanted [] a s e = ground arith
fit_at-split wanted ((b, t) ∷ bs) a s e = elim (Bool-cases (leb wanted t)) [
  | inl f ↦
      let here : ◌≡◌ {A = Option (ℕ × ℕ)} (some (b, t)) (some (a, s)) = rw f at e in
      let at_a : b ≡ a = cc in
      let at_s : t ≡ s = cc in
      ([], bs, ap₂ (λ (x y : ℕ). (x, y) ∷ bs) at_a at_s, ground arith, (rw (f, at_a, at_s) refl))
  | inr f ↦
      let later : fit_at wanted bs ≡ some (a, s) = rw f at e in
      let (xs, ys, p, w, q) = fit_at-split wanted bs a s later in
      ((b, t) ∷ xs, ys, ap ((b, t) ∷◌) p, w, (rw f (ap ((b, t) ∷◌) q)))
]

pub find_suitable-fit_at :
    (fuel : ℕ) (m : Memory) (wanted prev p : ℕ) (bs : Blocks) (a s : ℕ)
    → Chain m prev p bs null
    → length bs ≤ fuel
    → fit_at wanted bs ≡ some (a, s)
    → find_suitable fuel m wanted p ≡ ok a
unfolding find_suitable
find_suitable-fit_at fuel m wanted prev p [] a s c h e = ground arith
find_suitable-fit_at zero m wanted prev p (x ∷ bs) a s c h e = ground arith
find_suitable-fit_at (suc fuel) m wanted prev p ((b, t) ∷ bs) a s (q, _, z, c) h e =
    elim (Bool-cases (leb wanted t)) [
      | inl f ↦
          let here : ◌≡◌ {A = Option (ℕ × ℕ)} (some (b, t)) (some (a, s)) = rw f at e in
          let at_a : b ≡ a = cc in
          let enough : ltb t wanted ≡ false = ground arith in rw (q, z, enough) (ap ok at_a)
      | inr f ↦
          let later : fit_at wanted bs ≡ some (a, s) = rw f at e in
          let small : ltb t wanted ≡ true = ground arith in
          rw (q, z, small)
            (find_suitable-fit_at fuel m wanted b (entry_next m b) bs a s c (omega arith) later)
    ]

-- A write between two parts of a free list.
pub write_word-IsFreeList :
    (m : Memory) (first address value : ℕ) (xs ys : Blocks)
    → Inside 12 xs address
    → Inside (address + 4) ys (2 ^ 31)
    → IsFreeList m first (xs ++ ys)
    → IsFreeList (write_word address value m) first (xs ++ ys)
write_word-IsFreeList m first address value xs ys i j is =
    let (q, c, d) = Chain-split m null first xs ys null is.chain in
    record {
      inside = is.inside;
      chain =
          Chain-append (write_word address value m) null first xs ys q null
            (Chain-write m address value null first 12 xs address q i (inr (omega arith)) c)
            (Chain-write m address value (last_of null xs) q (address + 4) ys (2 ^ 31) null j
              (inl (omega arith)) d);
    }

-- The header does not touch the free blocks that are apart from the block.
pub write_header-IsFreeList :
    (m : Memory) (first a size : ℕ) (xs ys : Blocks)
    → Inside 12 xs a
    → Inside (a + 8) ys (2 ^ 31)
    → IsFreeList m first (xs ++ ys)
    → IsFreeList (write_header a size m) first (xs ++ ys)
unfolding write_header
write_header-IsFreeList m first a size xs ys i j is =
    write_word-IsFreeList (write_word a alloc_header_checksum m) first (a + 4) size xs ys
      (Inside-weaken 12 12 xs a (a + 4) (omega arith) (omega arith) i)
      (Inside-weaken (a + 8) (a + 4 + 4) ys (2 ^ 31) (2 ^ 31) (omega arith) (omega arith) j)
      (write_word-IsFreeList m first a alloc_header_checksum xs ys i
        (Inside-weaken (a + 8) (a + 4) ys (2 ^ 31) (2 ^ 31) (omega arith) (omega arith) j) is)

pub write_header-same :
    (m : Memory) (a size b : ℕ) → (b < a) ⊎ (a + 8 ≤ b) → write_header a size m b ≡ m b
unfolding write_header
write_header-same m a size b o =
    write_word-other (a + 4) size (write_word a alloc_header_checksum m) b
      (elim o [ inl x ↦ inl (omega arith) | inr x ↦ inr (omega arith) ])
    ∙ write_word-other a alloc_header_checksum m b
        (elim o [ inl x ↦ inl x | inr x ↦ inr (omega arith) ])

-- A block in use: its header has the checksum and the block's size.
abbrev pub IsUsed : Memory → (a s : ℕ) → Type 0
IsUsed m a s = (read_word m a ≡ alloc_header_checksum) × (read_word m (a + 4) ≡ s)

pub write_header-IsUsed :
    (m : Memory) (a size : ℕ) → size < 2 ^ 32 → IsUsed (write_header a size m) a size
unfolding write_header
write_header-IsUsed m a size h = (
  read_word-write_word_other (a + 4) size (write_word a alloc_header_checksum m) a
        (inl (omega arith))
      ∙ read_word-write_word a alloc_header_checksum m (omega arith),
  read_word-write_word (a + 4) size (write_word a alloc_header_checksum m) h,
)
