-- ===== src/Heap/Allocating.antt =====
-- alloc on a free list.
use juice_os_kernel.Prelude.{
  ℕ, ◌+◌, ◌-◌, ◌%◌, ◌^◌, ◌≤◌, ◌<◌, max, ◌≡◌, refl, sym, ◌∙◌, subst, inl, inr, true, false, some,
  ◌∷◌, ◌++◌, arith, ltb, leb, ◌==◌, Bool-cases, length,
}
use juice_os_kernel.Heap.Defs.{
  null, FllAllocator, ok, entry_size, move_entry, llist_remove, llist_shrink, write_header,
  needed_bytes, alloc,
}
use juice_os_kernel.Heap.Chains.{Blocks, Inside, Inside-bounds, Inside-weaken}
use juice_os_kernel.Heap.Links.{IsFreeList}
use juice_os_kernel.Heap.Entries.{Around, IsFreeList-Around}
use juice_os_kernel.Heap.Moves.{Elsewhere, Elsewhere-split, move_entry-IsFreeList, move_entry-same}
use juice_os_kernel.Heap.Removals.{llist_remove-IsFreeList, llist_remove-same}
use juice_os_kernel.Heap.FirstFit.{
  fit_at, taken, left_of, without, fit_at-split, find_suitable-fit_at, write_header-IsFreeList,
  write_header-same, IsUsed, write_header-IsUsed,
}

-- What is left of the list, and the memory, behind a block of `size` bytes at `a`.
pub record Allocated (h : FllAllocator) (bs : Blocks) (a size : ℕ) (bs' : Blocks)
    (h' : FllAllocator) : Type 0 where
  pub is_free_list : IsFreeList h'.memory h'.first bs'
  pub is_used : IsUsed h'.memory a size
  pub same : (b : ℕ) → Elsewhere b bs → h'.memory b ≡ h.memory b

-- The allocator with the header of a block written.
abbrev with_header : (a size : ℕ) → FllAllocator → FllAllocator
with_header a size h = record h { memory = write_header a size h.memory }

shrink-all :
    (h : FllAllocator) (xs : Blocks) (a s : ℕ) (ys : Blocks) (wanted : ℕ)
    → Around h.memory h.first xs a s ys
    → wanted ≤ s
    → s - wanted < 12
    → llist_shrink a wanted h ≡ ok (llist_remove a h, s)
unfolding llist_shrink
shrink-all h xs a s ys wanted ar w small =
    let enough : leb wanted (entry_size h.memory a) ≡ true = ground (arith, ar.size_entry) in
    let f : ltb (entry_size h.memory a - wanted) 12 ≡ true = ground (arith, ar.size_entry) in
    rw (enough, f, ar.size_entry) refl

shrink-part :
    (h : FllAllocator) (xs : Blocks) (a s : ℕ) (ys : Blocks) (wanted : ℕ)
    → Around h.memory h.first xs a s ys
    → wanted + 12 ≤ s
    → llist_shrink a wanted h ≡ ok (move_entry a (a + wanted) (s - wanted) h, wanted)
unfolding llist_shrink
shrink-part h xs a s ys wanted ar w =
    let top = Inside-bounds (a + s) ys (2 ^ 31) ar.inside_back in
    let enough : leb wanted (entry_size h.memory a) ≡ true = ground (arith, ar.size_entry) in
    let f : ltb (entry_size h.memory a - wanted) 12 ≡ false = ground (arith, ar.size_entry) in
    let place : (a + wanted) % 2 ^ 32 ≡ a + wanted = omega arith in
    rw (enough, f, ar.size_entry, place) refl

remove-Allocated :
    (h : FllAllocator) (xs : Blocks) (a s : ℕ) (ys : Blocks)
    → Around h.memory h.first xs a s ys
    → Allocated h (xs ++ ((a, s) ∷ ys)) a s (xs ++ ys) (with_header a s (llist_remove a h))
remove-Allocated h xs a s ys ar =
    let h1 = llist_remove a h in
    let room = ar.room in
    let top = Inside-bounds (a + s) ys (2 ^ 31) ar.inside_back in
    record {
      is_free_list =
          write_header-IsFreeList h1.memory h1.first a s xs ys ar.inside_front
            (Inside-weaken (a + s) (a + 8) ys (2 ^ 31) (2 ^ 31) (omega arith) (omega arith)
              ar.inside_back)
            (llist_remove-IsFreeList h xs a s ys ar);
      is_used = write_header-IsUsed h1.memory a s (omega arith);
      same = λ b e.
          let (f, (o, g)) = Elsewhere-split b xs ((a, s) ∷ ys) e in
          write_header-same h1.memory a s b (elim o [ inl x ↦ inl x | inr x ↦ inr (omega arith) ])
          ∙ llist_remove-same h xs a s ys ar b f g
              (elim o [ inl x ↦ inl x | inr x ↦ inr (omega arith) ]);
    }

move-Allocated :
    (h : FllAllocator) (xs : Blocks) (a s : ℕ) (ys : Blocks) (wanted : ℕ)
    → Around h.memory h.first xs a s ys
    → 12 ≤ wanted
    → wanted + 12 ≤ s
    → Allocated h
        (xs ++ ((a, s) ∷ ys))
        a
        wanted
        (xs ++ ((a + wanted, s - wanted) ∷ ys))
        (with_header a wanted (move_entry a (a + wanted) (s - wanted) h))
move-Allocated h xs a s ys wanted ar k w =
    let n = a + wanted in
    let t = s - wanted in
    let h1 = move_entry a n t h in
    let top = Inside-bounds (a + s) ys (2 ^ 31) ar.inside_back in
    let low = Inside-bounds 12 xs a ar.inside_front in
    let i : Inside 12 xs n =
      Inside-weaken 12 12 xs a n (omega arith) (omega arith) ar.inside_front in
    let j : Inside (n + t) ys (2 ^ 31) =
      Inside-weaken (a + s) (n + t) ys (2 ^ 31) (2 ^ 31) (omega arith) (omega arith)
        ar.inside_back in
    record {
      is_free_list =
          write_header-IsFreeList h1.memory h1.first a wanted xs ((n, t) ∷ ys) ar.inside_front
            (omega arith, omega arith, j)
            (move_entry-IsFreeList h xs a s ys ar n t (omega arith) (omega arith) i j
              (omega arith));
      is_used = write_header-IsUsed h1.memory a wanted (omega arith);
      same = λ b e.
          let (f, (o, g)) = Elsewhere-split b xs ((a, s) ∷ ys) e in
          write_header-same h1.memory a wanted b
            (elim o [ inl x ↦ inl x | inr x ↦ inr (omega arith) ])
          ∙ move_entry-same h xs a s ys ar n t b (omega arith) (omega arith) i j (omega arith)
              (elim o [ inl x ↦ inl (omega arith) | inr x ↦ inr (omega arith) ]) f g;
    }

shrink-Allocated :
    (h : FllAllocator) (xs : Blocks) (a s : ℕ) (ys : Blocks) (wanted : ℕ)
    → Around h.memory h.first xs a s ys
    → 12 ≤ wanted
    → wanted ≤ s
    → (h1 : FllAllocator) × (llist_shrink a wanted h ≡ ok (h1, taken wanted s))
      × Allocated h
          (xs ++ ((a, s) ∷ ys))
          a
          (taken wanted s)
          (xs ++ left_of wanted a s ys)
          (with_header a (taken wanted s) h1)
shrink-Allocated h xs a s ys wanted ar k w = elim (Bool-cases (ltb (s - wanted) 12)) [
  | inl e ↦ (
    llist_remove a h,
    (rw e (shrink-all h xs a s ys wanted ar w (ground arith))),
    (rw e (remove-Allocated h xs a s ys ar)),
  )
  | inr e ↦ (
    move_entry a (a + wanted) (s - wanted) h,
    (rw e (shrink-part h xs a s ys wanted ar (ground arith))),
    (rw e (move-Allocated h xs a s ys wanted ar k (ground arith))),
  )
]

-- On a free list that lies below 2^31, for a size above 0 and below 2^31, with a round of the
-- search for each free block: when a free block is large enough for the size and the header, alloc
-- ends and returns the place behind the header of the first such block, from whose start it takes
-- the bytes needed, or all, when less than an entry would be left. The rest of the list stays a
-- free list, the header has the checksum and the bytes taken, and no byte outside of the free
-- blocks and the two words at null is changed.
pub alloc-Allocated :
    (h : FllAllocator) (bs : Blocks) (size fuel a s : ℕ)
    → IsFreeList h.memory h.first bs
    → 0 < size
    → size < 2 ^ 31
    → length bs ≤ fuel
    → fit_at (max (size + 8) 12) bs ≡ some (a, s)
    → (h' : FllAllocator) × (alloc fuel size h ≡ ok (a + 8, h'))
      × Allocated h bs a (taken (max (size + 8) 12) s) (without (max (size + 8) 12) bs) h'
unfolding alloc needed_bytes
alloc-Allocated h bs size fuel a s is z w f e =
    let wanted = max (size + 8) 12 in
    let (xs, ys, p, k, q) = fit_at-split wanted bs a s e in
    let ar =
      IsFreeList-Around h.memory h.first xs a s ys (subst (IsFreeList h.memory h.first) p is) in
    let low = Inside-bounds 12 xs a ar.inside_front in
    let top = Inside-bounds (a + s) ys (2 ^ 31) ar.inside_back in
    let (h1, g, r) = shrink-Allocated h xs a s ys wanted ar (omega arith) k in
    let nonzero : (size == 0) ≡ false = ground arith in
    let needed : max ((size + 8) % 2 ^ 32) 12 ≡ wanted = omega arith in
    let found = find_suitable-fit_at fuel h.memory wanted null h.first bs a s is.chain f e in
    let not_null : (a == 0) ≡ false = ground arith in
    let place : (a + 8) % 2 ^ 32 ≡ a + 8 = omega arith in
    (
      with_header a (taken wanted s) h1,
      (rw (nonzero, needed, found, not_null, g, place) refl),
      subst
          (λ (x : Blocks). Allocated h bs a (taken wanted s) x (with_header a (taken wanted s) h1))
          (sym q)
          (subst
            (λ (x : Blocks).
              Allocated h x a (taken wanted s) (xs ++ left_of wanted a s ys)
                (with_header a (taken wanted s) h1))
            (sym p) r),
    )
