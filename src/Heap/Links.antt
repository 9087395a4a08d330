-- ===== src/Heap/Links.antt =====
-- Changes of the links at the ends of a chain.
use juice_os_kernel.Prelude.{
  ℕ, ◌+◌, ◌^◌, ◌≤◌, ◌<◌, ◌≡◌, refl, sym, ◌∙◌, subst, ◌⊎◌, inl, inr, [], ◌∷◌, arith,
}
use juice_os_kernel.Heap.Memory.{
  Memory, write_word, read_word-write_word, read_word-write_word_other,
}
use juice_os_kernel.Heap.Defs.{null, entry_prev, entry_next, entry_size, set_prev, set_next}
use juice_os_kernel.Heap.Chains.{
  Blocks, Inside, Chain, last_of, start_of, last_of-Inside, Chain-write,
}

-- The last block of a chain gets another successor.
pub Chain-set_next :
    (m : Memory) (prev p lo : ℕ) (xs : Blocks) (hi q q' : ℕ)
    → Inside lo xs hi
    → q' < 2 ^ 32
    → Chain m prev p xs q
    → Chain (set_next (last_of prev xs) q' m) prev (start_of xs q') xs q'
unfolding entry_prev entry_next entry_size set_next
Chain-set_next m prev p lo [] hi q q' i w c = refl
Chain-set_next m prev p lo ((a, s) ∷ []) hi q q' (l, k, r) w (e, b, z, c) = (
  refl,
  read_word-write_word_other (a + 4) q' m a (inl (omega arith)) ∙ b,
  read_word-write_word_other (a + 4) q' m (a + 8) (inr (omega arith)) ∙ z,
  read_word-write_word (a + 4) q' m w,
)
Chain-set_next m prev p lo ((a, s) ∷ (a', s') ∷ xs) hi q q' (l, k, (l', k', r)) w (e, b, z, c) =
    let far : a + s ≤ last_of a' xs = elim (last_of-Inside a' (a' + s') xs hi r) [
      | inl x ↦ omega arith
      | inr (x, y) ↦ omega arith
    ] in
    let rest =
      Chain-set_next m a (entry_next m a) (a + s) ((a', s') ∷ xs) hi q q' (l', k', r) w c in
    (
      refl,
      read_word-write_word_other (last_of a' xs + 4) q' m a (inl (omega arith)) ∙ b,
      read_word-write_word_other (last_of a' xs + 4) q' m (a + 8) (inl (omega arith)) ∙ z,
      subst (λ (n : ℕ). Chain (write_word (last_of a' xs + 4) q' m) a n ((a', s') ∷ xs) q')
          (sym
            (read_word-write_word_other (last_of a' xs + 4) q' m (a + 4) (inl (omega arith)) ∙ c.0))
          rest,
    )

-- The first block of a chain gets another predecessor.
pub Chain-set_prev :
    (m : Memory) (prev q lo : ℕ) (ys : Blocks) (hi stop prev' : ℕ)
    → Inside lo ys hi
    → prev' < 2 ^ 32
    → Chain m prev q ys stop
    → Chain (set_prev q prev' m) prev' q ys stop
unfolding entry_prev entry_next entry_size set_prev
Chain-set_prev m prev q lo [] hi stop prev' i w c = c
Chain-set_prev m prev q lo ((a, s) ∷ ys) hi stop prev' (l, k, r) w (e, b, z, c) =
    let put : Chain (write_word a prev' m) prev' a ((a, s) ∷ ys) stop = (
      refl,
      read_word-write_word a prev' m w,
      read_word-write_word_other a prev' m (a + 8) (inr (omega arith)) ∙ z,
      subst (λ (n : ℕ). Chain (write_word a prev' m) a n ys stop)
          (sym (read_word-write_word_other a prev' m (a + 4) (inr (omega arith))))
          (Chain-write m a prev' a (entry_next m a) (a + s) ys hi stop r (inl (omega arith)) c),
    ) in
    subst (λ (n : ℕ). Chain (write_word n prev' m) prev' n ((a, s) ∷ ys) stop) (sym e) put

-- A block of its own, from what stands in its fields.
pub Chain-one :
    (m : Memory) (prev a s stop : ℕ)
    → entry_prev m a ≡ prev
    → entry_size m a ≡ s
    → entry_next m a ≡ stop
    → Chain m prev a ((a, s) ∷ []) stop
Chain-one m prev a s stop b z n = (refl, b, z, n)

-- A write to the place of a block's predecessor or successor, or to the null entry.
abbrev pub Apart : (address lo hi : ℕ) → Type 0
Apart address lo hi = (address + 4 ≤ lo) ⊎ (hi ≤ address)

-- The list of the allocator: its blocks lie behind the null entry.
pub record IsFreeList (m : Memory) (first : ℕ) (bs : Blocks) : Type 0 where
  pub inside : Inside 12 bs (2 ^ 31)
  pub chain : Chain m null first bs null
