-- ===== src/Heap/Entries.antt =====
-- An entry between two chains of a free list.
use juice_os_kernel.Prelude.{
  ℕ, ◌+◌, ◌^◌, ◌≤◌, ◌<◌, ◌≡◌, refl, sym, ap, ◌∙◌, subst, ◌⊎◌, inl, inr, [], ◌∷◌, ◌++◌, arith, ◌==◌,
  if◌then◌else◌,
}
use juice_os_kernel.Heap.Memory.{
  Memory, read_word, write_word, read_word-write_word, read_word-write_word_other,
}
use juice_os_kernel.Heap.Defs.{
  null, entry_prev, entry_next, entry_size, set_prev, set_next, set_size,
}
use juice_os_kernel.Heap.Chains.{
  Blocks, Inside, Chain, last_of, start_of, Inside-bounds, Inside-append, Inside-split,
  last_of-Inside, Chain-write, Chain-append, Chain-split,
}
use juice_os_kernel.Heap.Links.{Chain-set_next, Chain-set_prev, IsFreeList}

-- A block of a free list, with the blocks around it.
pub record Around (m : Memory) (first : ℕ) (xs : Blocks) (a s : ℕ) (ys : Blocks) : Type 0 where
  pub front : Chain m null first xs a
  pub prev_entry : entry_prev m a ≡ last_of null xs
  pub size_entry : entry_size m a ≡ s
  pub back : Chain m a (entry_next m a) ys null
  pub inside_front : Inside 12 xs a
  pub inside_back : Inside (a + s) ys (2 ^ 31)
  pub room : 12 ≤ s

pub IsFreeList-Around :
    (m : Memory) (first : ℕ) (xs : Blocks) (a s : ℕ) (ys : Blocks)
    → IsFreeList m first (xs ++ ((a, s) ∷ ys))
    → Around m first xs a s ys
IsFreeList-Around m first xs a s ys is =
    let (q, c, (e, b, z, d)) = Chain-split m null first xs ((a, s) ∷ ys) null is.chain in
    let (i, (_, w, r)) = Inside-split 12 xs a s ys (2 ^ 31) is.inside in
    record {
      front = subst (λ (n : ℕ). Chain m null first xs n) e c;
      prev_entry = b;
      size_entry = z;
      back = d;
      inside_front = i;
      inside_back = r;
      room = w;
    }

-- The entry that a chain begins with.
pub start-Inside :
    (m : Memory) (prev p lo : ℕ) (bs : Blocks) (hi : ℕ)
    → Inside lo bs hi
    → Chain m prev p bs null
    → (p ≡ 0) ⊎ ((lo ≤ p) × (p + 12 ≤ hi))
start-Inside m prev p lo [] hi i c = inl c
start-Inside m prev p lo ((a, s) ∷ bs) hi (l, k, r) (e, b, z, c) =
    let t = Inside-bounds (a + s) bs hi r in inr (omega arith, omega arith)

pub first-start_of :
    (m : Memory) (first : ℕ) (xs : Blocks) (a q : ℕ)
    → Inside 12 xs a
    → Chain m null first xs a
    → (if a == first then q else first) ≡ start_of xs q
first-start_of m first [] a q i c = ground arith
first-start_of m first ((b, t) ∷ xs) a q (l, k, r) (e, _, _, c) =
    let w = Inside-bounds (b + t) xs a r in ground arith

-- The chains before and behind a place where an entry is put: the entry's own words, then the
-- words of its neighbours.
linked_front :
    (m : Memory) (first : ℕ) (xs : Blocks) (q n t l r : ℕ)
    → Inside 12 xs n
    → n < 2 ^ 32
    → l ≡ last_of null xs
    → (r ≡ 0) ⊎ (n ≤ r)
    → Chain m null first xs q
    → Chain
        (set_prev r n (set_next l n (set_size n t (set_next n r (set_prev n l m)))))
        null
        (start_of xs n)
        xs
        n
unfolding set_prev set_next set_size
linked_front m first xs q n t l r i w e o c =
    let m1 = write_word n l m in
    let m2 = write_word (n + 4) r m1 in
    let m3 = write_word (n + 8) t m2 in
    let c1 = Chain-write m n l null first 12 xs n q i (inr (omega arith)) c in
    let c2 = Chain-write m1 (n + 4) r null first 12 xs n q i (inr (omega arith)) c1 in
    let c3 = Chain-write m2 (n + 8) t null first 12 xs n q i (inr (omega arith)) c2 in
    let c4 : Chain (write_word (l + 4) n m3) null (start_of xs n) xs n =
      subst (λ (k : ℕ). Chain (write_word (k + 4) n m3) null (start_of xs n) xs n) (sym e)
        (Chain-set_next m3 null first 12 xs n q n i w c3) in
    Chain-write (write_word (l + 4) n m3) r n null (start_of xs n) 12 xs n n i
      (elim o [ inl x ↦ inl (omega arith) | inr x ↦ inr x ]) c4

linked_back :
    (m : Memory) (ys : Blocks) (prev n t l r : ℕ)
    → Inside (n + t) ys (2 ^ 31)
    → 12 ≤ t
    → 12 ≤ n
    → n < 2 ^ 32
    → (l ≡ 0) ⊎ (l + 12 ≤ n)
    → Chain m prev r ys null
    → Chain (set_prev r n (set_next l n (set_size n t (set_next n r (set_prev n l m))))) n r ys null
unfolding set_prev set_next set_size
linked_back m ys prev n t l r i k k' w o c =
    let m1 = write_word n l m in
    let m2 = write_word (n + 4) r m1 in
    let m3 = write_word (n + 8) t m2 in
    let c1 = Chain-write m n l prev r (n + t) ys (2 ^ 31) null i (inl (omega arith)) c in
    let c2 = Chain-write m1 (n + 4) r prev r (n + t) ys (2 ^ 31) null i (inl (omega arith)) c1 in
    let c3 = Chain-write m2 (n + 8) t prev r (n + t) ys (2 ^ 31) null i (inl (omega arith)) c2 in
    let c4 =
      Chain-write m3 (l + 4) n prev r (n + t) ys (2 ^ 31) null i
        (elim o [ inl x ↦ inl (omega arith) | inr x ↦ inl (omega arith) ]) c3 in
    Chain-set_prev (write_word (l + 4) n m3) prev r (n + t) ys (2 ^ 31) null n i w c4

-- The words of the entry itself.
linked_entry :
    (m : Memory) (n t l r : ℕ)
    → 12 ≤ n
    → n < 2 ^ 31
    → t < 2 ^ 32
    → (l ≡ 0) ⊎ (l + 12 ≤ n)
    → (r ≡ 0) ⊎ ((n + 12 ≤ r) × (r < 2 ^ 31))
    → Chain
        (set_prev r n (set_next l n (set_size n t (set_next n r (set_prev n l m)))))
        l
        n
        ((n, t) ∷ [])
        r
unfolding set_prev set_next set_size entry_prev entry_next entry_size
linked_entry m n t l r k w v o p =
    let m1 = write_word n l m in
    let m2 = write_word (n + 4) r m1 in
    let m3 = write_word (n + 8) t m2 in
    let m4 = write_word (l + 4) n m3 in
    let behind : (j : ℕ) → j ≤ 8 → read_word (write_word r n m4) (n + j) ≡ read_word m3 (n + j) =
      λ j h.
        read_word-write_word_other r n m4 (n + j)
          (elim p [ inl x ↦ inr (omega arith) | inr x ↦ inl (omega arith) ])
        ∙ read_word-write_word_other (l + 4) n m3 (n + j)
            (elim o [ inl x ↦ inr (omega arith) | inr x ↦ inr (omega arith) ]) in
    let l_small : l < 2 ^ 32 = elim o [ inl x ↦ omega arith | inr x ↦ omega arith ] in
    let r_small : r < 2 ^ 32 = elim p [ inl x ↦ omega arith | inr x ↦ omega arith ] in
    let n0 : n + 0 ≡ n = omega arith in
    (
      refl,
      subst (λ (j : ℕ). read_word (write_word r n m4) j ≡ l) n0
          (behind 0 (omega arith)
            ∙ ap (read_word m3) n0
            ∙ read_word-write_word_other (n + 8) t m2 n (inl (omega arith))
            ∙ read_word-write_word_other (n + 4) r m1 n (inl (omega arith))
            ∙ read_word-write_word n l m l_small),
      behind 8 (omega arith) ∙ read_word-write_word (n + 8) t m2 v,
      behind 4 (omega arith)
          ∙ read_word-write_word_other (n + 8) t m2 (n + 4) (inl (omega arith))
          ∙ read_word-write_word (n + 4) r m1 r_small,
    )

-- An entry of its own between two chains, with the neighbours' words set.
pub linked-IsFreeList :
    (m : Memory) (first : ℕ) (xs ys : Blocks) (q prev n t l r : ℕ)
    → Inside 12 xs n
    → Inside (n + t) ys (2 ^ 31)
    → 12 ≤ t
    → 12 ≤ n
    → l ≡ last_of null xs
    → Chain m null first xs q
    → Chain m prev r ys null
    → IsFreeList
        (set_prev r n (set_next l n (set_size n t (set_next n r (set_prev n l m)))))
        (start_of xs n)
        (xs ++ ((n, t) ∷ ys))
linked-IsFreeList m first xs ys q prev n t l r i j k w e c d =
    let top = Inside-bounds (n + t) ys (2 ^ 31) j in
    let before : (l ≡ 0) ⊎ (l + 12 ≤ n) = elim (last_of-Inside null 12 xs n i) [
      | inl x ↦ inl (omega arith)
      | inr (x, y) ↦ inr (omega arith)
    ] in
    let behind : (r ≡ 0) ⊎ ((n + 12 ≤ r) × (r < 2 ^ 31)) =
      elim (start-Inside m prev r (n + t) ys (2 ^ 31) j d) [
        | inl x ↦ inl x
        | inr (x, y) ↦ inr (omega arith, omega arith)
      ] in
    let behind' : (r ≡ 0) ⊎ (n ≤ r) = elim behind [
      | inl x ↦ inl x
      | inr (x, y) ↦ inr (omega arith)
    ] in
    let m' = set_prev r n (set_next l n (set_size n t (set_next n r (set_prev n l m)))) in
    record {
      inside = Inside-append 12 xs ((n, t) ∷ ys) n (2 ^ 31) i (omega arith, k, j);
      chain =
          Chain-append m' null (start_of xs n) xs ((n, t) ∷ ys) n null
            (linked_front m first xs q n t l r i (omega arith) e behind' c)
            (subst (λ (v : ℕ). Chain m' v n ((n, t) ∷ ys) null) e
              (Chain-append m' l n ((n, t) ∷ []) ys r null
                (linked_entry m n t l r w (omega arith) (omega arith) before behind)
                (linked_back m ys prev n t l r j k w (omega arith) before d)));
    }
