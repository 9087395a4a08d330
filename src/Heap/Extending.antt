-- ===== src/Heap/Extending.antt =====
-- An entry that grows by the block behind it.
use juice_os_kernel.Prelude.{
  ℕ, ◌+◌, ◌%◌, ◌^◌, ◌≤◌, ◌<◌, ◌≡◌, refl, ◌∙◌, ◌⊎◌, inl, inr, true, false, [], ◌∷◌, ◌++◌, arith,
  ◌==◌, Bool-cases,
}
use juice_os_kernel.Heap.Memory.{read_word, write_word, read_word-write_word_other}
use juice_os_kernel.Heap.Defs.{
  FllAllocator, entry_next, entry_size, set_size, llist_remove, extend, distance,
}
use juice_os_kernel.Heap.Chains.{Blocks, Inside, Inside-bounds}
use juice_os_kernel.Heap.Entries.{Around}
use juice_os_kernel.Heap.Inserting.{Inserted}
use juice_os_kernel.Heap.Joining.{merged-Freed}
use juice_os_kernel.Heap.Growing.{joined, Freed, distance-above, grown-Freed}

-- extend with what stands behind the entry.
extend_last :
    (h : FllAllocator) (b t s : ℕ)
    → entry_size h.memory b ≡ t
    → t + s < 2 ^ 32
    → entry_next h.memory b ≡ 0
    → extend b s h ≡ record h { memory = set_size b (t + s) h.memory }
unfolding extend entry_next set_size
extend_last h b t s z w n =
    let grown : (entry_size h.memory b + s) % 2 ^ 32 ≡ t + s = omega (arith, z) in
    let next : read_word (write_word (b + 8) (t + s) h.memory) (b + 4) ≡ 0 =
      read_word-write_word_other (b + 8) (t + s) h.memory (b + 4) (inl (omega arith)) ∙ n in
    rw (grown, next) refl

extend_apart :
    (h : FllAllocator) (b t s c : ℕ)
    → entry_size h.memory b ≡ t
    → t + s < 2 ^ 32
    → entry_next h.memory b ≡ c
    → b + (t + s) < c
    → c < 2 ^ 31
    → extend b s h ≡ record h { memory = set_size b (t + s) h.memory }
unfolding extend entry_next set_size
extend_apart h b t s c z w n l k =
    let grown : (entry_size h.memory b + s) % 2 ^ 32 ≡ t + s = omega (arith, z) in
    let next : read_word (write_word (b + 8) (t + s) h.memory) (b + 4) ≡ c =
      read_word-write_word_other (b + 8) (t + s) h.memory (b + 4) (inl (omega arith)) ∙ n in
    let far : (distance c (b + (t + s)) == 0) ≡ false =
      let d = distance-above c (b + (t + s)) (omega arith) k in ground arith in
    let here : (c == 0) ≡ false = ground arith in rw (grown, next, far, here) refl

extend_next :
    (h : FllAllocator) (b t s c u : ℕ)
    → entry_size h.memory b ≡ t
    → entry_next h.memory b ≡ c
    → entry_size h.memory c ≡ u
    → b + (t + s) ≡ c
    → c + u ≤ 2 ^ 31
    → 12 ≤ t
    → 12 ≤ u
    → extend b s h
      ≡ llist_remove c (record h { memory = set_size b (t + s + u) (set_size b (t + s) h.memory) })
unfolding extend entry_next entry_size set_size
extend_next h b t s c u z n v l k w w' =
    let grown : (read_word h.memory (b + 8) + s) % 2 ^ 32 ≡ t + s = omega (arith, z) in
    let m1 = write_word (b + 8) (t + s) h.memory in
    let next : read_word m1 (b + 4) ≡ c =
      read_word-write_word_other (b + 8) (t + s) h.memory (b + 4) (inl (omega arith)) ∙ n in
    let size : read_word m1 (c + 8) ≡ u =
      read_word-write_word_other (b + 8) (t + s) h.memory (c + 8) (inr (omega arith)) ∙ v in
    let next2 : read_word (write_word (b + 8) (t + s + u) m1) (b + 4) ≡ c =
      read_word-write_word_other (b + 8) (t + s + u) m1 (b + 4) (inl (omega arith)) ∙ next in
    let near : (distance c (b + (t + s)) == 0) ≡ true =
      let d = distance-above c (b + (t + s)) (omega arith) (omega arith) in ground arith in
    let here : (c == 0) ≡ false = ground arith in
    let sum : (t + s + u) % 2 ^ 32 ≡ t + s + u = omega arith in
    rw (grown, next, near, here, size, sum, next2) refl

pub extend-Freed :
    (h : FllAllocator) (xs : Blocks) (b t : ℕ) (ys : Blocks) (a s : ℕ)
    → Around h.memory h.first xs b t ys
    → b + t ≡ a
    → Inside (a + s) ys (2 ^ 31)
    → Freed h (xs ++ ((b, t) ∷ ys)) a s (xs ++ joined b (t + s) ys) (extend b s h)
extend-Freed h xs b t [] a s ar e j =
    rw (extend_last h b t s ar.size_entry (omega arith) ar.back)
      (grown-Freed h xs b t [] a s ar e j)
extend-Freed h xs b t ((c, u) ∷ ys) a s ar e (l, w, j) =
    let top = Inside-bounds (c + u) ys (2 ^ 31) j in
    let room = ar.room in
    elim (Bool-cases (b + (t + s) == c)) [
      | inl f ↦
          let at_c : b + (t + s) ≡ c = ground arith in
          let next : entry_next h.memory b ≡ c = ar.back.0 in
          let size : entry_size h.memory c ≡ u = ar.back.2 in
          rw (extend_next h b t s c u ar.size_entry next size at_c top room w, f)
            (merged-Freed h xs b t c u ys a s ar e (omega arith))
      | inr f ↦
          let before_c : b + (t + s) < c = ground arith in
          let next : entry_next h.memory b ≡ c = ar.back.0 in
          rw (extend_apart h b t s c ar.size_entry (omega arith) next before_c (omega arith), f)
            (grown-Freed h xs b t ((c, u) ∷ ys) a s ar e (l, w, j))
    ]

-- A block lies between the free blocks.
abbrev pub Between : (a s : ℕ) → Blocks → Type 0
Between a s [] = Unit {0}
Between a s ((b, t) ∷ bs) = ((b + t ≤ a) ⊎ (a + s ≤ b)) × Between a s bs

pub Between-Inside :
    (a s : ℕ) (ys : Blocks)
    → Between a s ys
    → Inside a ys (2 ^ 31)
    → a + s ≤ 2 ^ 31
    → Inside (a + s) ys (2 ^ 31)
Between-Inside a s [] g i h = h
Between-Inside a s ((b, t) ∷ ys) (o, g) (l, w, r) h =
    (elim o [ inl x ↦ (let no : 1 ≤ 0 = omega arith in elim no [ ]) | inr x ↦ x ], w, r)

pub Inserted-Freed :
    (h : FllAllocator) (xs ys : Blocks) (a s : ℕ) (h' : FllAllocator)
    → Inserted h xs a s ys h'
    → Freed h (xs ++ ys) a s (xs ++ ((a, s) ∷ ys)) h'
Inserted-Freed h xs ys a s h' i = record { is_free_list = i.is_free_list; same = i.same }
