-- ===== src/Heap/Removals.antt =====
-- An entry that leaves the list.
use juice_os_kernel.Prelude.{
  ℕ, ◌+◌, ◌^◌, ◌≤◌, ◌<◌, ◌≡◌, refl, sym, ap, ◌∙◌, subst, ◌⊎◌, inl, inr, ◌++◌, arith, ◌==◌,
  if◌then◌else◌,
}
use juice_os_kernel.Heap.Memory.{
  Memory, read_word, write_word, write_word-other, read_word-write_word_other,
}
use juice_os_kernel.Heap.Defs.{
  null, FllAllocator, entry_prev, entry_next, set_prev, set_next, set_size, llist_remove,
}
use juice_os_kernel.Heap.Chains.{
  Blocks, Chain, last_of, start_of, Inside-bounds, Inside-append, Inside-weaken, last_of-Inside,
  Chain-write, Chain-append,
}
use juice_os_kernel.Heap.Links.{Chain-set_next, Chain-set_prev, IsFreeList}
use juice_os_kernel.Heap.Entries.{Around, start-Inside, first-start_of}
use juice_os_kernel.Heap.Moves.{Elsewhere, Elsewhere-null, last-Elsewhere, start-Elsewhere}

module _ (h : FllAllocator) (xs : Blocks) (a s : ℕ) (ys : Blocks)
    (ar : Around h.memory h.first xs a s ys) where
  -- A block that is taken out.
  removed_memory :
      (llist_remove a h).memory
      ≡ set_size a 0 (
          set_prev
            (entry_next h.memory a)
            (entry_prev h.memory a)
            (set_next (entry_prev h.memory a) (entry_next h.memory a) h.memory))
  unfolding llist_remove entry_prev entry_next set_prev set_next set_size
  removed_memory =
      let l = entry_prev h.memory a in
      let r = entry_next h.memory a in
      let m1 = write_word (l + 4) r h.memory in
      let l_eq : l ≡ last_of null xs = ar.prev_entry in
      let low : 12 ≤ a = Inside-bounds 12 xs a ar.inside_front in
      let before : (l ≡ 0) ⊎ (l + 12 ≤ a) = elim (last_of-Inside null 12 xs a ar.inside_front) [
        | inl x ↦ inl (omega arith)
        | inr (x, y) ↦ inr (omega arith)
      ] in
      let apart : l + 4 + 4 ≤ a = elim before [ inl x ↦ omega arith | inr x ↦ omega arith ] in
      let next_word : read_word m1 (a + 4) ≡ r =
        read_word-write_word_other (l + 4) r h.memory (a + 4) (inr (omega arith)) in
      let back_word : read_word m1 a ≡ l =
        read_word-write_word_other (l + 4) r h.memory a (inr (omega arith)) in
      ap (λ (x : ℕ). write_word (a + 8) 0 (write_word x (read_word m1 a) m1)) next_word
      ∙ ap (λ (x : ℕ). write_word (a + 8) 0 (write_word r x m1)) back_word

  pub llist_remove-IsFreeList :
      IsFreeList (llist_remove a h).memory (llist_remove a h).first (xs ++ ys)
  unfolding llist_remove set_prev set_next set_size
  llist_remove-IsFreeList =
      let l = entry_prev h.memory a in
      let r = entry_next h.memory a in
      let top = Inside-bounds (a + s) ys (2 ^ 31) ar.inside_back in
      let room = ar.room in
      let i = ar.inside_front in
      let low : 12 ≤ a = Inside-bounds 12 xs a i in
      let l_eq : l ≡ last_of null xs = ar.prev_entry in
      let before : (l ≡ 0) ⊎ (l + 12 ≤ a) = elim (last_of-Inside null 12 xs a i) [
        | inl x ↦ inl (omega arith)
        | inr (x, y) ↦ inr (omega arith)
      ] in
      let behind = start-Inside h.memory a r (a + s) ys (2 ^ 31) ar.inside_back ar.back in
      let r_small : r < 2 ^ 32 = elim behind [ inl x ↦ omega arith | inr (x, y) ↦ omega arith ] in
      let l_small : l < 2 ^ 32 = elim before [ inl x ↦ omega arith | inr x ↦ omega arith ] in
      let m1 = write_word (l + 4) r h.memory in
      let m2 = write_word r l m1 in
      let m3 = write_word (a + 8) 0 m2 in
      let x1 : Chain m1 null (start_of xs r) xs r =
        subst (λ (k : ℕ). Chain (write_word (k + 4) r h.memory) null (start_of xs r) xs r)
          (sym l_eq) (Chain-set_next h.memory null h.first 12 xs a a r i r_small ar.front) in
      let x2 =
        Chain-write m1 r l null (start_of xs r) 12 xs a r i
          (elim behind [ inl x ↦ inl (omega arith) | inr (x, y) ↦ inr (omega arith) ]) x1 in
      let x3 = Chain-write m2 (a + 8) 0 null (start_of xs r) 12 xs a r i (inr (omega arith)) x2 in
      let y1 =
        Chain-write h.memory (l + 4) r a r (a + s) ys (2 ^ 31) null ar.inside_back
          (elim before [ inl x ↦ inl (omega arith) | inr x ↦ inl (omega arith) ]) ar.back in
      let y2 = Chain-set_prev m1 a r (a + s) ys (2 ^ 31) null l ar.inside_back l_small y1 in
      let y3 =
        Chain-write m2 (a + 8) 0 l r (a + s) ys (2 ^ 31) null ar.inside_back (inl (omega arith))
          y2 in
      let first_eq = first-start_of h.memory h.first xs a r i ar.front in
      let made : IsFreeList m3 (start_of xs r) (xs ++ ys) = record {
        inside =
            Inside-append 12 xs ys (a + s) (2 ^ 31)
              (Inside-weaken 12 12 xs a (a + s) (omega arith) (omega arith) i) ar.inside_back;
        chain =
            Chain-append m3 null (start_of xs r) xs ys r null x3
              (subst (λ (k : ℕ). Chain m3 k r ys null) l_eq y3);
      } in
      subst (λ (f : ℕ). IsFreeList (llist_remove a h).memory f (xs ++ ys))
        (sym (first_swap r) ∙ refl)
        (subst (λ (x : Memory). IsFreeList x (start_of xs r) (xs ++ ys)) (sym removed_memory) made)
    where
      first_swap : (r : ℕ) → (if h.first == a then r else h.first) ≡ start_of xs r
      first_swap r = ground (arith, first-start_of h.memory h.first xs a r ar.inside_front ar.front)

  pub llist_remove-same :
      (b : ℕ)
      → Elsewhere b xs
      → Elsewhere b ys
      → (b < a) ⊎ (a + 12 ≤ b)
      → (llist_remove a h).memory b ≡ h.memory b
  unfolding set_prev set_next set_size
  llist_remove-same b e f o =
      let l = entry_prev h.memory a in
      let r = entry_next h.memory a in
      let m1 = write_word (l + 4) r h.memory in
      let l_eq : l ≡ last_of null xs = ar.prev_entry in
      let null_apart = Elsewhere-null b xs e in
      let before = last-Elsewhere b 12 xs a null ar.inside_front (inr (omega arith)) e in
      let behind = start-Elsewhere b h.memory a r (a + s) ys (2 ^ 31) ar.inside_back ar.back f in
      ap (λ (x : Memory). x b) removed_memory
      ∙ write_word-other (a + 8) 0 (write_word r l m1) b
          (elim o [ inl x ↦ inl (omega arith) | inr x ↦ inr (omega arith) ])
      ∙ write_word-other r l m1 b behind
      ∙ write_word-other (l + 4) r h.memory b
          (elim before [ inl x ↦ inl (omega arith) | inr x ↦ inr (omega arith) ])
