-- ===== src/Heap/Inserting.antt =====
-- The insertion of an entry into a free list.
use juice_os_kernel.Prelude.{ℕ, ◌+◌, ◌≤◌, ◌<◌, ◌≡◌, sym, ap, ◌∙◌, ◌⊎◌, inl, inr, ◌∷◌, ◌++◌, arith}
use juice_os_kernel.Heap.Memory.{Memory, write_word, write_word-other}
use juice_os_kernel.Heap.Defs.{FllAllocator}
use juice_os_kernel.Heap.Chains.{Blocks}
use juice_os_kernel.Heap.Links.{IsFreeList}
use juice_os_kernel.Heap.Moves.{Elsewhere}
use juice_os_kernel.Heap.Swaps.{write_word-swap}

-- The writes of an entry `n` of `t` bytes between `l` and `r`, in the orders of the operations.
abbrev pub linked : (n t l r : ℕ) → Memory → Memory
linked n t l r m =
    write_word r n
      (write_word (l + 4) n (write_word (n + 8) t (write_word (n + 4) r (write_word n l m))))

fields :
    (n t l r : ℕ) (m : Memory)
    → write_word (n + 4) r (write_word n l (write_word (n + 8) t m))
      ≡ write_word (n + 8) t (write_word (n + 4) r (write_word n l m))
fields n t l r m =
    ap (write_word (n + 4) r) (write_word-swap n l (n + 8) t m (inl (omega arith)))
    ∙ write_word-swap (n + 4) r (n + 8) t (write_word n l m) (inl (omega arith))

-- Before the first entry: the words of the null entry are left alone.
pub linked_first :
    (n t r : ℕ) (m : Memory)
    → 12 ≤ n
    → n + 12 ≤ r
    → (k : ℕ) → 8 ≤ k
    → write_word r n (write_word (n + 4) r (write_word n 0 (write_word (n + 8) t m))) k
      ≡ linked n t 0 r m k
linked_first n t r m w h k z =
    let f = write_word (n + 8) t (write_word (n + 4) r (write_word n 0 m)) in
    ap (λ (x : Memory). write_word r n x k) (fields n t 0 r m)
    ∙ sym (
        ap (λ (x : Memory). x k) (write_word-swap r n (0 + 4) n f (inr (omega arith)))
        ∙ write_word-other (0 + 4) n (write_word r n f) k (inr (omega arith)))

pub linked_between :
    (n t l r : ℕ) (m : Memory)
    → (l + 12 ≤ n)
    → write_word r n
        (write_word (n + 4) r (write_word n l (write_word (l + 4) n (write_word (n + 8) t m))))
      ≡ linked n t l r m
linked_between n t l r m h =
    let m1 = write_word (n + 8) t m in
    ap (write_word r n) (
      ap (write_word (n + 4) r) (write_word-swap n l (l + 4) n m1 (inr (omega arith)))
      ∙ write_word-swap (n + 4) r (l + 4) n (write_word n l m1) (inr (omega arith))
      ∙ ap (write_word (l + 4) n) (fields n t l r m))

-- Behind the last entry.
pub linked_last :
    (n t l : ℕ) (m : Memory)
    → 12 ≤ n
    → l + 12 ≤ n
    → (k : ℕ) → 8 ≤ k
    → write_word (l + 4) n (write_word (n + 4) 0 (write_word n l (write_word (n + 8) t m))) k
      ≡ linked n t l 0 m k
linked_last n t l m w h k z =
    let f = write_word (n + 8) t (write_word (n + 4) 0 (write_word n l m)) in
    ap (λ (x : Memory). write_word (l + 4) n x k) (fields n t l 0 m)
    ∙ sym (write_word-other 0 n (write_word (l + 4) n f) k (inr (omega arith)))

-- A new entry: the list with it, and the bytes that stay.
pub record Inserted (h : FllAllocator) (xs : Blocks) (n t : ℕ) (ys : Blocks) (h' : FllAllocator)
    : Type 0 where
  pub is_free_list : IsFreeList h'.memory h'.first (xs ++ ((n, t) ∷ ys))
  pub same : (k : ℕ) → Elsewhere k (xs ++ ys) → (k < n) ⊎ (n + t ≤ k) → h'.memory k ≡ h.memory k

pub linked_same :
    (m : Memory) (n t l r k : ℕ)
    → 12 ≤ t
    → (k < n) ⊎ (n + t ≤ k)
    → (k < l) ⊎ (l + 8 ≤ k)
    → (k < r) ⊎ (r + 4 ≤ k)
    → linked n t l r m k ≡ m k
linked_same m n t l r k w o p q =
    write_word-other r n
      (write_word (l + 4) n (write_word (n + 8) t (write_word (n + 4) r (write_word n l m)))) k q
    ∙ write_word-other (l + 4) n (write_word (n + 8) t (write_word (n + 4) r (write_word n l m))) k
        (elim p [ inl x ↦ inl (omega arith) | inr x ↦ inr (omega arith) ])
    ∙ write_word-other (n + 8) t (write_word (n + 4) r (write_word n l m)) k
        (elim o [ inl x ↦ inl (omega arith) | inr x ↦ inr (omega arith) ])
    ∙ write_word-other (n + 4) r (write_word n l m) k
        (elim o [ inl x ↦ inl (omega arith) | inr x ↦ inr (omega arith) ])
    ∙ write_word-other n l m k (elim o [ inl x ↦ inl x | inr x ↦ inr (omega arith) ])
