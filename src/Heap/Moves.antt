-- ===== src/Heap/Moves.antt =====
-- What llist_shrink, llist_grow_up and llist_remove make of a free list.
use juice_os_kernel.Prelude.{
  ℕ, ◌+◌, ◌^◌, ◌≤◌, ◌<◌, ◌≡◌, sym, ap, ◌∙◌, subst, ◌⊎◌, inl, inr, [], ◌∷◌, ◌++◌, arith,
}
use juice_os_kernel.Heap.Memory.{
  Memory, read_word, write_word, write_word-other, read_word-write_word, read_word-write_word_other,
}
use juice_os_kernel.Heap.Defs.{
  null, FllAllocator, entry_prev, entry_next, set_prev, set_next, set_size, copy_entry,
  link_neighbours, move_entry,
}
use juice_os_kernel.Heap.Chains.{Blocks, Inside, Chain, last_of, start_of, last_of-Inside}
use juice_os_kernel.Heap.Links.{IsFreeList}
use juice_os_kernel.Heap.Entries.{Around, start-Inside, first-start_of, linked-IsFreeList}

-- The bytes of the null entry's links and of the blocks are apart from a byte.
abbrev pub Elsewhere : (b : ℕ) → Blocks → Type 0
Elsewhere b [] = 8 ≤ b
Elsewhere b ((a, s) ∷ bs) = ((b < a) ⊎ (a + s ≤ b)) × Elsewhere b bs

pub Elsewhere-null : (b : ℕ) (bs : Blocks) → Elsewhere b bs → 8 ≤ b
Elsewhere-null b [] e = e
Elsewhere-null b (x ∷ bs) (_, e) = Elsewhere-null b bs e

pub Elsewhere-split :
    (b : ℕ) (xs ys : Blocks) → Elsewhere b (xs ++ ys) → Elsewhere b xs × Elsewhere b ys
Elsewhere-split b [] ys e = (Elsewhere-null b ys e, e)
Elsewhere-split b (x ∷ xs) ys (o, e) = let (f, g) = Elsewhere-split b xs ys e in ((o, f), g)

-- The words of the last entry before a place, and of the first entry behind it.
pub last-Elsewhere :
    (b lo : ℕ) (xs : Blocks) (hi p : ℕ)
    → Inside lo xs hi
    → (b < p) ⊎ (p + 8 ≤ b)
    → Elsewhere b xs
    → (b < last_of p xs) ⊎ (last_of p xs + 8 ≤ b)
last-Elsewhere b lo [] hi p i o e = o
last-Elsewhere b lo ((a, s) ∷ xs) hi p (l, k, r) o (x, e) =
    last-Elsewhere b (a + s) xs hi a r (elim x [ inl y ↦ inl y | inr y ↦ inr (omega arith) ]) e

pub start-Elsewhere :
    (b : ℕ) (m : Memory) (prev p lo : ℕ) (ys : Blocks) (hi : ℕ)
    → Inside lo ys hi
    → Chain m prev p ys null
    → Elsewhere b ys
    → (b < p) ⊎ (p + 4 ≤ b)
start-Elsewhere b m prev p lo [] hi i c e = inr (omega arith)
start-Elsewhere b m prev p lo ((a, s) ∷ ys) hi (l, k, r) (q, _, _, _) (x, e) = elim x [
  | inl y ↦ inl (omega arith)
  | inr y ↦ inr (omega arith)
]

module _ (h : FllAllocator) (xs : Blocks) (a s : ℕ) (ys : Blocks)
    (ar : Around h.memory h.first xs a s ys) where
  -- A block that has moved, or changed its size, between its neighbours.
  moved_memory :
      (n t : ℕ)
      → 12 ≤ n
      → n < 2 ^ 31
      → Inside 12 xs n
      → Inside (n + t) ys (2 ^ 31)
      → 12 ≤ t
      → (move_entry a n t h).memory
        ≡ set_prev (entry_next h.memory a) n (
            set_next (entry_prev h.memory a) n (
              set_size n t
                (set_next n (entry_next h.memory a) (set_prev n (entry_prev h.memory a) h.memory))))
  unfolding move_entry link_neighbours copy_entry entry_prev entry_next set_prev set_next set_size
  moved_memory n t w v i j k =
      let l = entry_prev h.memory a in
      let r = entry_next h.memory a in
      let m1 = write_word n l h.memory in
      let m2 = write_word (n + 4) r m1 in
      let m3 = write_word (n + 8) t m2 in
      let l_eq : l ≡ last_of null xs = ar.prev_entry in
      let before : (l ≡ 0) ⊎ (l + 12 ≤ n) = elim (last_of-Inside null 12 xs n i) [
        | inl x ↦ inl (omega arith)
        | inr (x, y) ↦ inr (omega arith)
      ] in
      let l_small : l < 2 ^ 32 = elim before [ inl x ↦ omega arith | inr x ↦ omega arith ] in
      let r_small : r < 2 ^ 32 = elim (start-Inside h.memory a r (n + t) ys (2 ^ 31) j ar.back) [
        | inl x ↦ omega arith
        | inr (x, y) ↦ omega arith
      ] in
      let back_word : read_word m3 n ≡ l =
        read_word-write_word_other (n + 8) t m2 n (inl (omega arith))
        ∙ read_word-write_word_other (n + 4) r m1 n (inl (omega arith))
        ∙ read_word-write_word n l h.memory l_small in
      let next_word : read_word (write_word (l + 4) n m3) (n + 4) ≡ r =
        read_word-write_word_other (l + 4) n m3 (n + 4)
          (elim before [ inl x ↦ inr (omega arith) | inr x ↦ inr (omega arith) ])
        ∙ read_word-write_word_other (n + 8) t m2 (n + 4) (inl (omega arith))
        ∙ read_word-write_word (n + 4) r m1 r_small in
      ap
        (λ (x : ℕ).
          write_word (read_word (write_word (x + 4) n m3) (n + 4)) n (write_word (x + 4) n m3))
        back_word
      ∙ ap (λ (x : ℕ). write_word x n (write_word (l + 4) n m3)) next_word

  pub move_entry-IsFreeList :
      (n t : ℕ)
      → 12 ≤ n
      → n < 2 ^ 31
      → Inside 12 xs n
      → Inside (n + t) ys (2 ^ 31)
      → 12 ≤ t
      → IsFreeList (move_entry a n t h).memory (move_entry a n t h).first (xs ++ ((n, t) ∷ ys))
  unfolding move_entry
  move_entry-IsFreeList n t w v i j k =
      let m' = (move_entry a n t h).memory in
      let made =
        linked-IsFreeList h.memory h.first xs ys a a n t (entry_prev h.memory a)
          (entry_next h.memory a) i j k w ar.prev_entry ar.front ar.back in
      let first_eq = first-start_of h.memory h.first xs a n ar.inside_front ar.front in
      subst (λ (f : ℕ). IsFreeList m' f (xs ++ ((n, t) ∷ ys))) (sym first_eq)
        (subst (λ (x : Memory). IsFreeList x (start_of xs n) (xs ++ ((n, t) ∷ ys)))
          (sym (moved_memory n t w v i j k)) made)

  pub move_entry-same :
      (n t b : ℕ)
      → 12 ≤ n
      → n < 2 ^ 31
      → Inside 12 xs n
      → Inside (n + t) ys (2 ^ 31)
      → 12 ≤ t
      → (b < n) ⊎ (n + 12 ≤ b)
      → Elsewhere b xs
      → Elsewhere b ys
      → (move_entry a n t h).memory b ≡ h.memory b
  unfolding set_prev set_next set_size
  move_entry-same n t b w v i j k o e f =
      let l = entry_prev h.memory a in
      let r = entry_next h.memory a in
      let m1 = write_word n l h.memory in
      let m2 = write_word (n + 4) r m1 in
      let m3 = write_word (n + 8) t m2 in
      let l_eq : l ≡ last_of null xs = ar.prev_entry in
      let null_apart = Elsewhere-null b xs e in
      let before = last-Elsewhere b 12 xs n null i (inr (omega arith)) e in
      let behind = start-Elsewhere b h.memory a r (n + t) ys (2 ^ 31) j ar.back f in
      ap (λ (x : Memory). x b) (moved_memory n t w v i j k)
      ∙ write_word-other r n (write_word (l + 4) n m3) b behind
      ∙ write_word-other (l + 4) n m3 b
          (elim before [ inl x ↦ inl (omega arith) | inr x ↦ inr (omega arith) ])
      ∙ write_word-other (n + 8) t m2 b
          (elim o [ inl x ↦ inl (omega arith) | inr x ↦ inr (omega arith) ])
      ∙ write_word-other (n + 4) r m1 b
          (elim o [ inl x ↦ inl (omega arith) | inr x ↦ inr (omega arith) ])
      ∙ write_word-other n l h.memory b (elim o [ inl x ↦ inl x | inr x ↦ inr (omega arith) ])
