-- ===== src/Heap/Joining.antt =====
-- A block that is joined with the entries beside it.
use juice_os_kernel.Prelude.{
  ℕ, ◌+◌, ◌^◌, ◌≤◌, ◌<◌, ◌≡◌, refl, sym, ap, ap₂, ◌∙◌, subst, ◌⊎◌, inl, inr, [], ◌∷◌, ◌++◌,
  append_assoc, arith, ◌==◌, if◌then◌else◌,
}
use juice_os_kernel.Heap.Memory.{
  Memory, read_word, write_word, write_word-other, read_word-write_word_other,
}
use juice_os_kernel.Heap.Defs.{
  null, FllAllocator, entry_prev, entry_next, set_prev, set_next, set_size, llist_remove,
}
use juice_os_kernel.Heap.Chains.{Blocks, last_of-append, Inside-bounds, Inside-weaken}
use juice_os_kernel.Heap.Links.{IsFreeList}
use juice_os_kernel.Heap.Entries.{Around, IsFreeList-Around, start-Inside}
use juice_os_kernel.Heap.Moves.{Elsewhere-null, Elsewhere-split}
use juice_os_kernel.Heap.Removals.{llist_remove-IsFreeList, llist_remove-same}
use juice_os_kernel.Heap.Swaps.{write_word-swap, set_size-IsFreeList}
use juice_os_kernel.Heap.Growing.{Freed, Elsewhere-append, grown-Freed}

removed_eq :
    (h : FllAllocator) (a l r : ℕ)
    → entry_prev h.memory a ≡ l
    → entry_next h.memory a ≡ r
    → l + 8 ≤ a
    → (llist_remove a h).memory
      ≡ write_word (a + 8) 0 (write_word r l (write_word (l + 4) r h.memory))
unfolding llist_remove entry_prev entry_next set_prev set_next set_size
removed_eq h a l r p n w =
    let m1 = write_word (l + 4) r h.memory in
    let next_word : read_word m1 (a + 4) ≡ r =
      read_word-write_word_other (l + 4) r h.memory (a + 4) (inr (omega arith)) ∙ n in
    let back_word : read_word m1 a ≡ l =
      read_word-write_word_other (l + 4) r h.memory a (inr (omega arith)) ∙ p in
    ap₂
      (λ (x y : ℕ). write_word (a + 8) 0 (
        write_word (read_word (write_word (x + 4) y h.memory) (a + 4))
          (read_word (write_word (x + 4) y h.memory) a) (write_word (x + 4) y h.memory)))
      p n
    ∙ ap₂ (λ (x y : ℕ). write_word (a + 8) 0 (write_word x y m1)) next_word back_word

-- A size that is written before a later entry is taken out.
remove_after_size :
    (h : FllAllocator) (b v c r : ℕ)
    → entry_prev h.memory c ≡ b
    → entry_next h.memory c ≡ r
    → b + 12 ≤ c
    → (r ≡ 0) ⊎ (c ≤ r)
    → 12 ≤ b
    → (llist_remove c (record h { memory = set_size b v h.memory })).memory
      ≡ set_size b v (llist_remove c h).memory
unfolding entry_prev entry_next set_size
remove_after_size h b v c r p n w o low =
    let m = h.memory in
    let m2 = write_word (b + 8) v m in
    let p2 : read_word m2 c ≡ b =
      read_word-write_word_other (b + 8) v m c (inr (omega arith)) ∙ p in
    let n2 : read_word m2 (c + 4) ≡ r =
      read_word-write_word_other (b + 8) v m (c + 4) (inr (omega arith)) ∙ n in
    removed_eq (record h { memory = m2 }) c b r p2 n2 (omega arith)
    ∙ ap (λ (x : Memory). write_word (c + 8) 0 (write_word r b x))
        (write_word-swap (b + 4) r (b + 8) v m (inl (omega arith)))
    ∙ ap (write_word (c + 8) 0) (
        write_word-swap r b (b + 8) v (write_word (b + 4) r m)
          (elim o [ inl x ↦ inl (omega arith) | inr x ↦ inr (omega arith) ]))
    ∙ write_word-swap (c + 8) 0 (b + 8) v (write_word r b (write_word (b + 4) r m))
        (inr (omega arith))
    ∙ ap (write_word (b + 8) v) (sym (removed_eq h c b r p n (omega arith)))

removed_first :
    (h : FllAllocator) (b v c : ℕ)
    → b + 12 ≤ c
    → (llist_remove c (record h { memory = set_size b v h.memory })).first
      ≡ (llist_remove c h).first
unfolding llist_remove entry_next set_size
removed_first h b v c w =
    ap (λ (x : ℕ). if h.first == c then x else h.first)
      (read_word-write_word_other (b + 8) v h.memory (c + 4) (inr (omega arith)))

set_size-other : (b v : ℕ) (m : Memory) (k : ℕ) → (k < b) ⊎ (b + 12 ≤ k) → set_size b v m k ≡ m k
unfolding set_size
set_size-other b v m k o =
    write_word-other (b + 8) v m k
      (elim o [ inl z ↦ inl (omega arith) | inr z ↦ inr (omega arith) ])

-- The block fills the space between two entries.
pub merged-Freed :
    (h : FllAllocator) (xs : Blocks) (b t c u : ℕ) (ys : Blocks) (a s : ℕ)
    → Around h.memory h.first xs b t ((c, u) ∷ ys)
    → b + t ≡ a
    → a + s ≡ c
    → Freed h (xs ++ ((b, t) ∷ (c, u) ∷ ys)) a s (xs ++ ((b, t + s + u) ∷ ys)) (
        llist_remove c (record h { memory = set_size b (t + s + u) (set_size b (t + s) h.memory) }))
merged-Freed h xs b t c u ys a s ar e f =
    let (l, w, back) = ar.inside_back in
    let room = ar.room in
    let low = Inside-bounds 12 xs b ar.inside_front in
    let top = Inside-bounds (c + u) ys (2 ^ 31) back in
    let h1 : FllAllocator = record h { memory = set_size b (t + s) h.memory } in
    let g = grown-Freed h xs b t ((c, u) ∷ ys) a s ar e (omega arith, w, back) in
    let one = append_assoc xs ((b, t + s) ∷ []) ((c, u) ∷ ys) in
    let ar1 =
      IsFreeList-Around h1.memory h1.first (xs ++ ((b, t + s) ∷ [])) c u ys
        (subst (IsFreeList h1.memory h1.first) (sym one) g.is_free_list) in
    let before : entry_prev h1.memory c ≡ b = ar1.prev_entry ∙ last_of-append null xs b (t + s) in
    let r = entry_next h1.memory c in
    let behind : (r ≡ 0) ⊎ (c ≤ r) =
      elim (start-Inside h1.memory c r (c + u) ys (2 ^ 31) ar1.inside_back ar1.back) [
        | inl x ↦ inl x
        | inr (x, y) ↦ inr (omega arith)
      ] in
    let h2 = llist_remove c h1 in
    let h3 = llist_remove c (record h { memory = set_size b (t + s + u) h1.memory }) in
    let mem : h3.memory ≡ set_size b (t + s + u) h2.memory =
      remove_after_size h1 b (t + s + u) c r before refl (omega arith) behind (omega arith) in
    let taken_out : IsFreeList h2.memory h2.first (xs ++ ((b, t + s) ∷ ys)) =
      subst (IsFreeList h2.memory h2.first) (append_assoc xs ((b, t + s) ∷ []) ys)
        (llist_remove-IsFreeList h1 (xs ++ ((b, t + s) ∷ [])) c u ys ar1) in
    let ar2 = IsFreeList-Around h2.memory h2.first xs b (t + s) ys taken_out in
    let sized =
      set_size-IsFreeList h2.memory h2.first xs b (t + s) ys (t + s + u) ar2 (omega arith) (
        Inside-weaken (c + u) (b + (t + s + u)) ys (2 ^ 31) (2 ^ 31) (omega arith) (omega arith)
          back) in
    record {
      is_free_list =
          subst (λ (x : ℕ). IsFreeList h3.memory x (xs ++ ((b, t + s + u) ∷ ys)))
            (sym (removed_first h1 b (t + s + u) c (omega arith)))
            (subst (λ (m : Memory). IsFreeList m h2.first (xs ++ ((b, t + s + u) ∷ ys))) (sym mem)
              sized);
      same = λ k p q.
          let (x, (o, (o', y))) = Elsewhere-split k xs ((b, t) ∷ (c, u) ∷ ys) p in
          let out : (k < b) ⊎ (b + (t + s) ≤ k) = elim o [
            | inl z ↦ inl z
            | inr z ↦ elim q [
              | inl z' ↦ (let no : 1 ≤ 0 = omega arith in elim no [ ])
              | inr z' ↦ inr (omega arith)
            ]
          ] in
          ap (λ (m : Memory). m k) mem
          ∙ set_size-other b (t + s + u) h2.memory k
              (elim out [ inl z ↦ inl (omega arith) | inr z ↦ inr (omega arith) ])
          ∙ llist_remove-same h1 (xs ++ ((b, t + s) ∷ [])) c u ys ar1 k
              (Elsewhere-append k xs ((b, t + s) ∷ []) x (out, Elsewhere-null k xs x)) y
              (elim o' [ inl z ↦ inl z | inr z ↦ inr (omega arith) ])
          ∙ g.same k p q;
    }
