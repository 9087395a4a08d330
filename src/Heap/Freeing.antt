-- ===== src/Heap/Freeing.antt =====
-- free on a free list, and what the two operations do without one.
use juice_os_kernel.Prelude.{
  ℕ, zero, suc, ◌+◌, ◌-◌, ◌%◌, ◌^◌, ◌≤◌, ◌<◌, max, ◌≡◌, refl, sym, ap, ◌∙◌, subst, ◌≢◌, inl, inr,
  true, false, Option, none, some, [], ◌∷◌, ◌++◌, arith, ltb, leb, ◌==◌, Bool-cases, length,
}
use juice_os_kernel.Heap.Memory.{
  Memory, write_word, write_word-other, read_word-write_word, read_word-write_word_other,
}
use juice_os_kernel.Heap.Defs.{
  null, FllAllocator, ok, endless, entry_next, entry_size, set_size, find_suitable, needed_bytes,
  alloc, free_loop, free,
}
use juice_os_kernel.Heap.Chains.{Blocks, Inside, Chain, Inside-weaken}
use juice_os_kernel.Heap.Links.{IsFreeList}
use juice_os_kernel.Heap.FirstFit.{fit_at, IsUsed, write_word-IsFreeList}
use juice_os_kernel.Heap.Growing.{released, Freed}
use juice_os_kernel.Heap.Extending.{Between}
use juice_os_kernel.Heap.Releasing.{free_loop-released}

-- The free blocks in front of a block, and those behind it.
Between-split :
    (a s lo : ℕ) (bs : Blocks)
    → Inside lo bs (2 ^ 31)
    → Between a s bs
    → lo ≤ a
    → a + s ≤ 2 ^ 31
    → (xs : Blocks) × (ys : Blocks) × (bs ≡ xs ++ ys) × Inside lo xs a × Inside (a + s) ys (2 ^ 31)
Between-split a s lo [] i g l h = ([], [], refl, l, h)
Between-split a s lo ((b, t) ∷ bs) (k, w, r) (inr x, g) l h = ([], (b, t) ∷ bs, refl, l, (x, w, r))
Between-split a s lo ((b, t) ∷ bs) (k, w, r) (inl x, g) l h =
    let (xs, ys, e, i, j) = Between-split a s (b + t) bs r g x h in
    ((b, t) ∷ xs, ys, ap ((b, t) ∷◌) e, (k, w, i), j)

-- A block in use of 12 bytes or more, below 2^31 and behind the null entry, that lies between the
-- blocks of a free list, of which there is one at least, is given back, with a round of the loop
-- for each free block: free ends, the list is a free list that has the block joined with its
-- neighbours where they touch, and no byte outside of the block, the free blocks and the two words
-- at null is changed.
pub free-released :
    (h : FllAllocator) (bs : Blocks) (fuel a s : ℕ)
    → IsFreeList h.memory h.first bs
    → bs ≢ []
    → IsUsed h.memory a s
    → Between a s bs
    → 12 ≤ a
    → 12 ≤ s
    → a + s ≤ 2 ^ 31
    → length bs ≤ fuel
    → (h' : FllAllocator) × (free fuel (a + 8) h ≡ ok h') × Freed h bs a s (released a s bs) h'
unfolding free
free-released h [] fuel a s is n u g l w k f = elim (n refl) [ ]
free-released h ((b, t) ∷ bs) fuel a s is n (check, size) g l w k f =
    let m = write_word a 0 h.memory in
    let h1 : FllAllocator = record h { memory = m } in
    let (xs, ys, e, i, j) = Between-split a s 12 ((b, t) ∷ bs) is.inside g l k in
    let kept : IsFreeList m h.first ((b, t) ∷ bs) = subst (IsFreeList m h.first) (sym e) (
      write_word-IsFreeList h.memory h.first a 0 xs ys i
        (Inside-weaken (a + s) (a + 4) ys (2 ^ 31) (2 ^ 31) (omega arith) (omega arith) j)
        (subst (IsFreeList h.memory h.first) e is)) in
    let (h', p, q) = free_loop-released bs fuel h1 [] b t a s kept l g w k f in
    let header : (a + 8 + 2 ^ 32 - 8) % 2 ^ 32 ≡ a = omega arith in
    let first_eq : h.first ≡ b = is.chain.0 in
    let low : 12 ≤ b = is.inside.0 in
    let some_first : (h.first == 0) ≡ false = ground (arith, first_eq) in
    let large : ltb 8 s ≡ true = ground arith in
    let started : free fuel (a + 8) h ≡ free_loop fuel a s h.first h1 =
      rw (header, check, size, large, some_first) refl in
    (
      h',
      started ∙ ap (λ (x : ℕ). free_loop fuel a s x h1) first_eq ∙ p,
      record {
        is_free_list = q.is_free_list;
        same = λ x y z.
            q.same x y z
            ∙ write_word-other a 0 h.memory x
                (elim z [ inl v ↦ inl v | inr v ↦ inr (omega arith) ]);
      },
    )

-- With no free block left, free of a block in use of 12 bytes or more, below 2^31, ends and makes
-- the block the first entry, whose size is right and whose successor is no address but the number
-- of bytes of the block: the word of the header that stands there.
pub free-null_first :
    (h : FllAllocator) (fuel a s : ℕ)
    → h.first ≡ null
    → IsUsed h.memory a s
    → 12 ≤ s
    → s < 2 ^ 31
    → a + s ≤ 2 ^ 31
    → (h' : FllAllocator) × (free fuel (a + 8) h ≡ ok h')
      × (h'.first ≡ a)
      × (entry_size h'.memory a ≡ s)
      × (entry_next h'.memory a ≡ s)
unfolding free entry_next entry_size set_size
free-null_first h fuel a s e (check, size) w v k =
    let m = write_word a 0 h.memory in
    let header : (a + 8 + 2 ^ 32 - 8) % 2 ^ 32 ≡ a = omega arith in
    let large : ltb 8 s ≡ true = ground arith in
    (
      record h { memory = write_word (a + 8) s m; first = a },
      (rw (header, check, size, large, e) refl),
      refl,
      read_word-write_word (a + 8) s m (omega arith),
      read_word-write_word_other (a + 8) s m (a + 4) (inl (omega arith))
          ∙ read_word-write_word_other a 0 h.memory (a + 4) (inr (omega arith))
          ∙ size,
    )

find_null :
    (fuel : ℕ) (m : Memory) (wanted : ℕ)
    → entry_size m null < wanted
    → entry_next m null ≡ null
    → find_suitable fuel m wanted null ≡ endless
unfolding find_suitable
find_null zero m wanted h e = refl
find_null (suc fuel) m wanted h e =
    let small : ltb (entry_size m null) wanted ≡ true = ground arith in
    rw (small) (
      subst (λ (p : ℕ). find_suitable fuel m wanted p ≡ endless) (sym e)
        (find_null fuel m wanted h e))

find_nothing :
    (fuel : ℕ) (m : Memory) (wanted prev p : ℕ) (bs : Blocks)
    → Chain m prev p bs null
    → fit_at wanted bs ≡ none
    → entry_size m null < wanted
    → entry_next m null ≡ null
    → find_suitable fuel m wanted p ≡ endless
unfolding find_suitable
find_nothing fuel m wanted prev p [] c e h n =
    subst (λ (x : ℕ). find_suitable fuel m wanted x ≡ endless) (sym c) (find_null fuel m wanted h n)
find_nothing zero m wanted prev p ((a, s) ∷ bs) c e h n = refl
find_nothing (suc fuel) m wanted prev p ((a, s) ∷ bs) (q, _, z, c) e h n =
    elim (Bool-cases (leb wanted s)) [
      | inl f ↦ let no : ◌≡◌ {A = Option (ℕ × ℕ)} (some (a, s)) none = rw f at e in ground arith
      | inr f ↦
          let later : fit_at wanted bs ≡ none = rw f at e in
          let small : ltb s wanted ≡ true = ground arith in
          rw (q, z, small) (find_nothing fuel m wanted a (entry_next m a) bs c later h n)
    ]

-- When no block of a free list is large enough for a size above 0 and below 2^31 and its header,
-- and the words at null read as an entry that is too small and its own successor, as zeros do,
-- alloc does not come to its assertion: in no number of rounds does its search end.
pub alloc-endless :
    (h : FllAllocator) (bs : Blocks) (size fuel : ℕ)
    → IsFreeList h.memory h.first bs
    → 0 < size
    → size < 2 ^ 31
    → fit_at (max (size + 8) 12) bs ≡ none
    → entry_size h.memory null < max (size + 8) 12
    → entry_next h.memory null ≡ null
    → alloc fuel size h ≡ endless
unfolding alloc needed_bytes
alloc-endless h bs size fuel is z w e k n =
    let nonzero : (size == 0) ≡ false = ground arith in
    let needed : max ((size + 8) % 2 ^ 32) 12 ≡ max (size + 8) 12 = omega arith in
    rw
      (
        nonzero,
        needed,
        find_nothing fuel h.memory (max (size + 8) 12) null h.first bs is.chain e k n,
      )
      refl
