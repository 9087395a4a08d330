-- ===== src/Heap/Insertions.antt =====
-- llist_insert_before and llist_insert_after on a free list.
use juice_os_kernel.Prelude.{
  ℕ, ◌+◌, ◌^◌, ◌≤◌, ◌<◌, ◌≡◌, refl, sym, ap, ◌∙◌, subst, ◌≢◌, ◌⊎◌, inl, inr, true, false, [], ◌∷◌,
  ◌++◌, arith, leb, ◌==◌,
}
use juice_os_kernel.Heap.Memory.{Memory, read_word, write_word, read_word-write_word_other}
use juice_os_kernel.Heap.Defs.{
  null, FllAllocator, ok, entry_prev, entry_next, set_prev, set_next, set_size, llist_insert_before,
  llist_insert_after,
}
use juice_os_kernel.Heap.Chains.{
  Blocks, Inside, Chain, last_of, start_of, Inside-bounds, Inside-append, last_of-Inside,
  last_of-append, Chain-append,
}
use juice_os_kernel.Heap.Links.{IsFreeList}
use juice_os_kernel.Heap.Entries.{Around, linked-IsFreeList}
use juice_os_kernel.Heap.Moves.{Elsewhere, Elsewhere-null, Elsewhere-split, last-Elsewhere}
use juice_os_kernel.Heap.Swaps.{IsFreeList-same}
use juice_os_kernel.Heap.Inserting.{
  linked, linked_first, linked_between, linked_last, Inserted, linked_same,
}

-- The list with the entry, for a memory that is that of the canonical writes behind null.
linked-Inserted :
    (h : FllAllocator) (xs ys : Blocks) (q prev n t r : ℕ) (h' : FllAllocator)
    → Inside 12 xs n
    → Inside (n + t) ys (2 ^ 31)
    → 12 ≤ t
    → Chain h.memory null h.first xs q
    → Chain h.memory prev r ys null
    → ((k : ℕ) → Elsewhere k ys → (k < r) ⊎ (r + 4 ≤ k))
    → ((k : ℕ) → 8 ≤ k → h'.memory k ≡ linked n t (last_of null xs) r h.memory k)
    → h'.first ≡ start_of xs n
    → Inserted h xs n t ys h'
unfolding set_prev set_next set_size
linked-Inserted h xs ys q prev n t r h' i j w c d o e f =
    let m = linked n t (last_of null xs) r h.memory in
    let low = Inside-bounds 12 xs n i in
    let made : IsFreeList m (start_of xs n) (xs ++ ((n, t) ∷ ys)) =
      linked-IsFreeList h.memory h.first xs ys q prev n t (last_of null xs) r i j w low refl c d in
    record {
      is_free_list =
          subst (λ (x : ℕ). IsFreeList h'.memory x (xs ++ ((n, t) ∷ ys))) (sym f)
            (IsFreeList-same m h'.memory (start_of xs n) (xs ++ ((n, t) ∷ ys))
              (λ k l. e k (omega arith)) made);
      same = λ k u v.
          let (a, b) = Elsewhere-split k xs ys u in
          let z = Elsewhere-null k xs a in
          e k z
          ∙ linked_same h.memory n t (last_of null xs) r k w v
              (last-Elsewhere k 12 xs n null i (inr z) a) (o k b);
    }

before_first :
    (h : FllAllocator) (b a s : ℕ)
    → h.first ≡ b
    → entry_prev h.memory b ≡ 0
    → a + 12 ≤ b
    → 12 ≤ s
    → llist_insert_before b a s h
      ≡ ok (record h {
        memory =
            write_word b a (write_word (a + 4) b (write_word a 0 (write_word (a + 8) s h.memory)));
        first = a;
      })
unfolding llist_insert_before entry_prev set_prev set_next set_size
before_first h b a s f p l w =
    let here : (h.first == b) ≡ true = ground arith in
    let fits : leb 12 s ≡ true = ground arith in
    let word : read_word (write_word (a + 8) s h.memory) b ≡ 0 =
      read_word-write_word_other (a + 8) s h.memory b (inr (omega arith)) ∙ p in
    rw (here, fits, word) refl

before_other :
    (h : FllAllocator) (b a s l : ℕ)
    → h.first ≢ b
    → entry_prev h.memory b ≡ l
    → l + 12 ≤ a
    → a + 12 ≤ b
    → 12 ≤ s
    → llist_insert_before b a s h
      ≡ ok (record h {
        memory = write_word b a (
            write_word
              (a + 4)
              b
              (write_word a l (write_word (l + 4) a (write_word (a + 8) s h.memory))));
        first = h.first;
      })
unfolding llist_insert_before entry_prev set_prev set_next set_size
before_other h b a s l f p k j w =
    let there : (h.first == b) ≡ false = ground arith in
    let fits : leb 12 s ≡ true = ground arith in
    let word : read_word (write_word (a + 8) s h.memory) b ≡ l =
      read_word-write_word_other (a + 8) s h.memory b (inr (omega arith)) ∙ p in
    let word' : read_word (write_word (l + 4) a (write_word (a + 8) s h.memory)) b ≡ l =
      read_word-write_word_other (l + 4) a (write_word (a + 8) s h.memory) b (inr (omega arith))
      ∙ word in
    rw (there, fits, word, word') refl

pub llist_insert_before-Inserted :
    (h : FllAllocator) (xs : Blocks) (b t : ℕ) (ys : Blocks) (a s : ℕ)
    → Around h.memory h.first xs b t ys
    → Inside 12 xs a
    → a + s ≤ b
    → 12 ≤ s
    → (h' : FllAllocator) × (llist_insert_before b a s h ≡ ok h')
      × Inserted h xs a s ((b, t) ∷ ys) h'
llist_insert_before-Inserted h [] b t ys a s ar i l w =
    let h' : FllAllocator = record h {
      memory =
          write_word b a (write_word (a + 4) b (write_word a 0 (write_word (a + 8) s h.memory)));
      first = a;
    } in
    (
      h',
      before_first h b a s ar.front ar.prev_entry (omega arith) w,
      linked-Inserted h [] ((b, t) ∷ ys) b 0 a s b h' i (l, ar.room, ar.inside_back) w ar.front
          (refl, ar.prev_entry, ar.size_entry, ar.back) (λ k (o, _). block_start k b t ar.room o)
          (λ k z. linked_first a s b h.memory i (omega arith) k z) refl,
    )
  where
    block_start : (k b t : ℕ) → 12 ≤ t → (k < b) ⊎ (b + t ≤ k) → (k < b) ⊎ (b + 4 ≤ k)
    block_start k b t w (inl x) = inl x
    block_start k b t w (inr x) = inr (omega arith)
llist_insert_before-Inserted h ((c, u) ∷ xs) b t ys a s ar (i, i', i'') l w =
    let p = last_of c xs in
    let h' : FllAllocator = record h {
      memory = write_word b a (
          write_word (a + 4) b
            (write_word a p (write_word (p + 4) a (write_word (a + 8) s h.memory))));
      first = h.first;
    } in
    let in_front : p + 12 ≤ a = elim (last_of-Inside c (c + u) xs a i'') [
      | inl x ↦ (let z = Inside-bounds (c + u) xs a i'' in omega arith)
      | inr (x, y) ↦ y
    ] in
    let other : h.first ≢ b =
      let z = Inside-bounds (c + u) xs a i'' in let e : h.first ≡ c = ar.front.0 in omega arith in
    (
      h',
      before_other h b a s p other ar.prev_entry in_front (omega arith) w,
      linked-Inserted h ((c, u) ∷ xs) ((b, t) ∷ ys) b p a s b h' (i, i', i'')
          (l, ar.room, ar.inside_back) w ar.front (refl, ar.prev_entry, ar.size_entry, ar.back)
          (λ k (o, _). elim o [ inl x ↦ inl x | inr x ↦ (let z = ar.room in inr (omega arith)) ])
          (λ k z. ap (λ (x : Memory). x k) (linked_between a s p b h.memory in_front)) ar.front.0,
    )

-- Behind the last entry of the list.
pub llist_insert_after-Inserted :
    (h : FllAllocator) (xs : Blocks) (b t a s : ℕ)
    → Around h.memory h.first xs b t []
    → b + t ≤ a
    → a + s ≤ 2 ^ 31
    → 12 ≤ s
    → (h' : FllAllocator) × (llist_insert_after b a s h ≡ ok h')
      × Inserted h (xs ++ ((b, t) ∷ [])) a s [] h'
unfolding llist_insert_after entry_next set_prev set_next set_size
llist_insert_after-Inserted h xs b t a s ar l k w =
    let room = ar.room in
    let h' : FllAllocator = record h {
      memory =
          write_word (b + 4) a
            (write_word (a + 4) 0 (write_word a b (write_word (a + 8) s h.memory)));
      first = h.first;
    } in
    let fits : leb 12 s ≡ true = ground arith in
    let none_behind : read_word (write_word (a + 8) s h.memory) (b + 4) ≡ 0 =
      read_word-write_word_other (a + 8) s h.memory (b + 4) (inl (omega arith)) ∙ ar.back in
    let low = Inside-bounds 12 xs b ar.inside_front in
    let front : Chain h.memory null h.first (xs ++ ((b, t) ∷ [])) null =
      Chain-append h.memory null h.first xs ((b, t) ∷ []) b null ar.front
        (refl, ar.prev_entry, ar.size_entry, ar.back) in
    (
      h',
      (rw (none_behind, fits)
          (ap
            (λ (x : ℕ). ok (record h {
              memory =
                  write_word (b + 4) a
                    (write_word (a + 4) x (write_word a b (write_word (a + 8) s h.memory)));
            }))
            none_behind)),
      linked-Inserted h (xs ++ ((b, t) ∷ [])) [] null a a s 0 h'
          (Inside-append 12 xs ((b, t) ∷ []) b a ar.inside_front (omega arith, room, l)) k w front
          refl (λ k e. inr (omega arith))
          (λ k z.
            linked_last a s b h.memory (omega arith) (omega arith) k z
            ∙ ap (λ (p : ℕ). linked a s p 0 h.memory k) (sym (last_of-append null xs b t)))
          (first_same xs ar.front),
    )
  where
    first_same :
        (xs : Blocks)
        → Chain h.memory null h.first xs b
        → h.first ≡ start_of (xs ++ ((b, t) ∷ [])) a
    first_same [] c = c
    first_same (x ∷ xs) c = c.0
