-- ===== src/Heap/Releasing.antt =====
-- The loop of free.
use juice_os_kernel.Prelude.{
  ℕ, zero, suc, ◌+◌, ◌^◌, ◌≤◌, ◌<◌, ◌≡◌, refl, sym, ◌∙◌, subst, inl, inr, true, false, [], ◌∷◌,
  ◌++◌, append_assoc, arith, leb, ◌==◌, Bool-cases, length,
}
use juice_os_kernel.Heap.Defs.{FllAllocator, ok, entry_next, llist_grow_up, extend, free_loop}
use juice_os_kernel.Heap.Chains.{Blocks, Inside, Inside-bounds, Inside-append}
use juice_os_kernel.Heap.Links.{IsFreeList}
use juice_os_kernel.Heap.Entries.{Around, IsFreeList-Around}
use juice_os_kernel.Heap.Insertions.{llist_insert_before-Inserted, llist_insert_after-Inserted}
use juice_os_kernel.Heap.Growing.{joined, released, Freed, llist_grow_up-Freed}
use juice_os_kernel.Heap.Extending.{extend-Freed, Between, Between-Inside, Inserted-Freed}
use juice_os_kernel.Heap.Rounds.{
  free_loop-extend, free_loop-grow_up, free_loop-insert_before, free_loop-behind,
}

-- A block that does not begin behind the entry.
released_before :
    (a s b t : ℕ) (bs : Blocks)
    → 12 ≤ s
    → a + s ≤ b
    → released a s ((b, t) ∷ bs) ≡ joined a s ((b, t) ∷ bs)
released_before a s b t bs w h =
    let other : (b + t == a) ≡ false = ground arith in
    let front : leb (a + s) b ≡ true = ground arith in rw (other, front) refl

free_loop-front :
    (fuel : ℕ) (h : FllAllocator) (xs : Blocks) (b t : ℕ) (ys : Blocks) (a s : ℕ)
    → Around h.memory h.first xs b t ys
    → Inside 12 xs a
    → a + s ≤ b
    → 12 ≤ s
    → (h' : FllAllocator) × (free_loop (suc fuel) a s b h ≡ ok h')
      × Freed h (xs ++ ((b, t) ∷ ys)) a s (xs ++ released a s ((b, t) ∷ ys)) h'
free_loop-front fuel h xs b t ys a s ar i l w =
    let top = Inside-bounds (b + t) ys (2 ^ 31) ar.inside_back in
    let low = Inside-bounds 12 xs a i in
    let room = ar.room in
    elim (Bool-cases (a + s == b)) [
      | inl e ↦
          let at_b : a + s ≡ b = ground arith in
          (
            llist_grow_up b s h,
            free_loop-grow_up fuel h b t a s ar.size_entry (omega arith) (omega arith) (omega arith)
                (omega arith) top at_b,
            (rw (released_before a s b t ys w l, e)
                (llist_grow_up-Freed h xs b t ys a s ar i at_b w)),
          )
      | inr e ↦
          let before_b : a + s < b = ground arith in
          let (h', p, q) = llist_insert_before-Inserted h xs b t ys a s ar i l w in
          (
            h',
            free_loop-insert_before fuel h b t a s ar.size_entry (omega arith) (omega arith)
                  (omega arith) (omega arith) top before_b
                ∙ p,
            (rw (released_before a s b t ys w l, e) (Inserted-Freed h xs ((b, t) ∷ ys) a s h' q)),
          )
    ]

-- The loop, from an entry of the list on that no block before it touches.
pub free_loop-released :
    (ys : Blocks) (fuel : ℕ) (h : FllAllocator) (xs : Blocks) (b t a s : ℕ)
    → IsFreeList h.memory h.first (xs ++ ((b, t) ∷ ys))
    → Inside 12 xs a
    → Between a s ((b, t) ∷ ys)
    → 12 ≤ s
    → a + s ≤ 2 ^ 31
    → length ((b, t) ∷ ys) ≤ fuel
    → (h' : FllAllocator) × (free_loop fuel a s b h ≡ ok h')
      × Freed h (xs ++ ((b, t) ∷ ys)) a s (xs ++ released a s ((b, t) ∷ ys)) h'
free_loop-released ys zero h xs b t a s is i g w k f = let no : 1 ≤ 0 = omega arith in elim no [ ]
free_loop-released ys (suc fuel) h xs b t a s is i (inr front, g) w k f =
    free_loop-front fuel h xs b t ys a s (IsFreeList-Around h.memory h.first xs b t ys is) i front w
free_loop-released [] (suc fuel) h xs b t a s is i (inl behind, g) w k f =
    let ar = IsFreeList-Around h.memory h.first xs b t [] is in
    let low = Inside-bounds 12 xs b ar.inside_front in
    let room = ar.room in
    elim (Bool-cases (b + t == a)) [
      | inl e ↦
          let touches : b + t ≡ a = ground arith in
          (
            extend b s h,
            free_loop-extend fuel h b t a s ar.size_entry (omega arith) (omega arith) (omega arith)
                k (omega arith) touches,
            (rw e (extend-Freed h xs b t [] a s ar touches k)),
          )
      | inr e ↦
          let apart : b + t < a = ground arith in
          let not_front : leb (a + s) b ≡ false = ground arith in
          let no_next : entry_next h.memory b ≡ 0 = ar.back in
          let one = append_assoc xs ((b, t) ∷ []) [] in
          let two = append_assoc xs ((b, t) ∷ []) ((a, s) ∷ []) in
          let (h', p, q) = llist_insert_after-Inserted h xs b t a s ar behind k w in
          let fr = Inserted-Freed h (xs ++ ((b, t) ∷ [])) [] a s h' q in
          (
            h',
            free_loop-behind fuel h b t a s ar.size_entry (omega arith) (omega arith) (omega arith)
                  k (omega arith) apart
                ∙ (rw no_next p),
            (rw (e, not_front)
                (subst (λ (x : Blocks). Freed h x a s (xs ++ ((b, t) ∷ (a, s) ∷ [])) h') one
                  (subst (λ (x : Blocks). Freed h (xs ++ ((b, t) ∷ []) ++ []) a s x h') two fr))),
          )
    ]
free_loop-released ((c, u) ∷ ys) (suc fuel) h xs b t a s is i (inl behind, g) w k f =
    let ar = IsFreeList-Around h.memory h.first xs b t ((c, u) ∷ ys) is in
    let low = Inside-bounds 12 xs b ar.inside_front in
    let room = ar.room in
    elim (Bool-cases (b + t == a)) [
      | inl e ↦
          let touches : b + t ≡ a = ground arith in
          let behind_a : Inside a ((c, u) ∷ ys) (2 ^ 31) =
            subst (λ (x : ℕ). Inside x ((c, u) ∷ ys) (2 ^ 31)) touches ar.inside_back in
          (
            extend b s h,
            free_loop-extend fuel h b t a s ar.size_entry (omega arith) (omega arith) (omega arith)
                k (omega arith) touches,
            (rw e (
                extend-Freed h xs b t ((c, u) ∷ ys) a s ar touches
                  (Between-Inside a s ((c, u) ∷ ys) g behind_a k))),
          )
      | inr e ↦
          let apart : b + t < a = ground arith in
          let not_front : leb (a + s) b ≡ false = ground arith in
          let next : entry_next h.memory b ≡ c = ar.back.0 in
          let c_some : (c == 0) ≡ false = let l = ar.inside_back.0 in ground arith in
          let one = append_assoc xs ((b, t) ∷ []) ((c, u) ∷ ys) in
          let two = append_assoc xs ((b, t) ∷ []) (released a s ((c, u) ∷ ys)) in
          let (h', p, q) =
            free_loop-released ys fuel h (xs ++ ((b, t) ∷ [])) c u a s
              (subst (IsFreeList h.memory h.first) (sym one) is)
              (Inside-append 12 xs ((b, t) ∷ []) b a ar.inside_front (omega arith, room, behind)) g
              w k (omega arith) in
          (
            h',
            free_loop-behind fuel h b t a s ar.size_entry (omega arith) (omega arith) (omega arith)
                  k (omega arith) apart
                ∙ (rw (next, c_some) p),
            (rw (e, not_front)
                (subst
                  (λ (x : Blocks). Freed h x a s (xs ++ ((b, t) ∷ released a s ((c, u) ∷ ys))) h')
                  one
                  (subst (λ (x : Blocks). Freed h (xs ++ ((b, t) ∷ []) ++ ((c, u) ∷ ys)) a s x h')
                    two q))),
          )
    ]
