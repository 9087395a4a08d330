-- ===== src/Heap/Chains.antt =====
-- Free lists: what the links of a list of blocks are.
use juice_os_kernel.Prelude.{
  ℕ, ◌+◌, ◌≤◌, ◌≡◌, refl, sym, ◌∙◌, subst, ◌⊎◌, inl, inr, List, [], ◌∷◌, ◌++◌, arith,
}
use juice_os_kernel.Heap.Memory.{Memory, read_word, write_word, read_word-write_word_other}
use juice_os_kernel.Heap.Defs.{entry_prev, entry_next, entry_size}

-- Free blocks by address and size, in the order of the list.
abbrev pub Blocks : Type 0
Blocks = List (ℕ × ℕ)

-- The blocks lie in order between `lo` and `hi`, apart, each with room for an entry.
abbrev pub Inside : (lo : ℕ) → Blocks → (hi : ℕ) → Type 0
Inside lo [] hi = lo ≤ hi
Inside lo ((a, s) ∷ bs) hi = (lo ≤ a) × (12 ≤ s) × Inside (a + s) bs hi

-- From `p`, whose entry points back to `prev`, the links lead through the blocks to `stop`.
abbrev pub Chain : Memory → (prev p : ℕ) → Blocks → (stop : ℕ) → Type 0
Chain m prev p [] stop = p ≡ stop
Chain m prev p ((a, s) ∷ bs) stop =
    (p ≡ a) × (entry_prev m a ≡ prev) × (entry_size m a ≡ s) × Chain m a (entry_next m a) bs stop

abbrev pub last_of : (prev : ℕ) → Blocks → ℕ
last_of prev [] = prev
last_of prev ((a, s) ∷ bs) = last_of a bs

-- Where the chain begins, when it is followed by one at `q`.
abbrev pub start_of : Blocks → (q : ℕ) → ℕ
start_of [] q = q
start_of ((a, s) ∷ bs) q = a

pub Inside-bounds : (lo : ℕ) (bs : Blocks) (hi : ℕ) → Inside lo bs hi → lo ≤ hi
Inside-bounds lo [] hi h = h
Inside-bounds lo ((a, s) ∷ bs) hi (h, k, r) = let b = Inside-bounds (a + s) bs hi r in omega arith

pub Inside-weaken :
    (lo lo' : ℕ) (bs : Blocks) (hi hi' : ℕ)
    → lo' ≤ lo
    → hi ≤ hi'
    → Inside lo bs hi
    → Inside lo' bs hi'
Inside-weaken lo lo' [] hi hi' l k h = omega arith
Inside-weaken lo lo' ((a, s) ∷ bs) hi hi' l k (h, w, r) =
    (omega arith, w, Inside-weaken (a + s) (a + s) bs hi hi' (omega arith) k r)

pub Inside-append :
    (lo : ℕ) (xs ys : Blocks) (mid hi : ℕ)
    → Inside lo xs mid
    → Inside mid ys hi
    → Inside lo (xs ++ ys) hi
Inside-append lo [] ys mid hi h k = Inside-weaken mid lo ys hi hi h (omega arith) k
Inside-append lo ((a, s) ∷ xs) ys mid hi (h, w, r) k =
    (h, w, Inside-append (a + s) xs ys mid hi r k)

-- The blocks before and from the one at `a` on.
pub Inside-split :
    (lo : ℕ) (xs : Blocks) (a s : ℕ) (ys : Blocks) (hi : ℕ)
    → Inside lo (xs ++ ((a, s) ∷ ys)) hi
    → Inside lo xs a × Inside a ((a, s) ∷ ys) hi
Inside-split lo [] a s ys hi (h, w, r) = (h, (omega arith, w, r))
Inside-split lo ((b, t) ∷ xs) a s ys hi (h, w, r) =
    let (l, k) = Inside-split (b + t) xs a s ys hi r in ((h, w, l), k)

pub last_of-Inside :
    (prev lo : ℕ) (xs : Blocks) (hi : ℕ)
    → Inside lo xs hi
    → (last_of prev xs ≡ prev) ⊎ ((lo ≤ last_of prev xs) × (last_of prev xs + 12 ≤ hi))
last_of-Inside prev lo [] hi h = inl refl
last_of-Inside prev lo ((a, s) ∷ xs) hi (h, w, r) = elim (last_of-Inside a (a + s) xs hi r) [
  | inl e ↦ inr (omega arith, (let b = Inside-bounds (a + s) xs hi r in omega arith))
  | inr (l, k) ↦ inr (omega arith, k)
]

-- A chain is not changed by a write to a word apart from its blocks.
pub Chain-write :
    (m : Memory) (address value prev p lo : ℕ) (bs : Blocks) (hi stop : ℕ)
    → Inside lo bs hi
    → (address + 4 ≤ lo) ⊎ (hi ≤ address)
    → Chain m prev p bs stop
    → Chain (write_word address value m) prev p bs stop
unfolding entry_prev entry_next entry_size
Chain-write m address value prev p lo [] hi stop i o c = c
Chain-write m address value prev p lo ((a, s) ∷ bs) hi stop (l, w, r) o (e, b, z, c) =
    let k = Inside-bounds (a + s) bs hi r in
    let apart : (n : ℕ)
        → n ≤ 8
        → read_word (write_word address value m) (a + n) ≡ read_word m (a + n) =
      λ n h.
        read_word-write_word_other address value m (a + n)
          (elim o [ inl x ↦ inr (omega arith) | inr x ↦ inl (omega arith) ]) in
    let zero_same : read_word (write_word address value m) a ≡ read_word m a =
      read_word-write_word_other address value m a
        (elim o [ inl x ↦ inr (omega arith) | inr x ↦ inl (omega arith) ]) in
    let o' : (address + 4 ≤ a + s) ⊎ (hi ≤ address) = elim o [
      | inl x ↦ inl (omega arith)
      | inr x ↦ inr x
    ] in
    (
      e,
      zero_same ∙ b,
      apart 8 (omega arith) ∙ z,
      subst (λ (n : ℕ). Chain (write_word address value m) a n bs stop)
          (sym (apart 4 (omega arith)))
          (Chain-write m address value a (entry_next m a) (a + s) bs hi stop r o' c),
    )

pub Chain-append :
    (m : Memory) (prev p : ℕ) (xs ys : Blocks) (q stop : ℕ)
    → Chain m prev p xs q
    → Chain m (last_of prev xs) q ys stop
    → Chain m prev p (xs ++ ys) stop
Chain-append m prev p [] ys q stop c d = subst (λ (n : ℕ). Chain m prev n ys stop) (sym c) d
Chain-append m prev p ((a, s) ∷ xs) ys q stop (e, b, z, c) d =
    (e, b, z, Chain-append m a (entry_next m a) xs ys q stop c d)

pub Chain-split :
    (m : Memory) (prev p : ℕ) (xs ys : Blocks) (stop : ℕ)
    → Chain m prev p (xs ++ ys) stop
    → (q : ℕ) × Chain m prev p xs q × Chain m (last_of prev xs) q ys stop
Chain-split m prev p [] ys stop c = (p, refl, c)
Chain-split m prev p ((a, s) ∷ xs) ys stop (e, b, z, c) =
    let (q, x, y) = Chain-split m a (entry_next m a) xs ys stop c in (q, (e, b, z, x), y)

pub last_of-append : (prev : ℕ) (xs : Blocks) (a s : ℕ) → last_of prev (xs ++ ((a, s) ∷ [])) ≡ a
last_of-append prev [] a s = refl
last_of-append prev ((b, t) ∷ xs) a s = last_of-append b xs a s
