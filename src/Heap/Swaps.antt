-- ===== src/Heap/Swaps.antt =====
-- Writes in another order, and writes of a block's size.
use juice_os_kernel.Prelude.{
  ℕ, ◌+◌, ◌^◌, ◌≤◌, ◌<◌, ◌≡◌, refl, sym, ◌∙◌, subst, ◌⊎◌, inl, inr, true, false, ◌&&◌, [], ◌∷◌,
  ◌++◌, arith, ltb, leb, Bool-cases,
}
use mathlib.Core.Path.{fun_ext}
use juice_os_kernel.Heap.Memory.{
  Memory, read_word, write_word, write_word-other, read_word-write_word, read_word-write_word_other,
}
use juice_os_kernel.Heap.Defs.{null, entry_prev, entry_next, entry_size, set_size}
use juice_os_kernel.Heap.Chains.{
  Blocks, Inside, Chain, Inside-bounds, Inside-append, Chain-write, Chain-append,
}
use juice_os_kernel.Heap.Links.{IsFreeList}
use juice_os_kernel.Heap.Entries.{Around}

write_word-inside :
    (x v : ℕ) (m m' : Memory) (k : ℕ) → x ≤ k → k < x + 4 → write_word x v m k ≡ write_word x v m' k
unfolding write_word
write_word-inside x v m m' k l h = ground arith

-- Writes to words that are apart can change places.
pub write_word-swap :
    (x v y w : ℕ) (m : Memory)
    → (x + 4 ≤ y) ⊎ (y + 4 ≤ x)
    → write_word x v (write_word y w m) ≡ write_word y w (write_word x v m)
write_word-swap x v y w m o =
    fun_ext
      (λ k. at k (Bool-cases (leb x k && ltb k (x + 4))) (Bool-cases (leb y k && ltb k (y + 4))))
  where
    at :
        (k : ℕ)
        → ((leb x k && ltb k (x + 4)) ≡ true) ⊎ ((leb x k && ltb k (x + 4)) ≡ false)
        → ((leb y k && ltb k (y + 4)) ≡ true) ⊎ ((leb y k && ltb k (y + 4)) ≡ false)
        → write_word x v (write_word y w m) k ≡ write_word y w (write_word x v m) k
    at k (inl e) f =
        let l : x ≤ k = ground arith in
        let h : k < x + 4 = ground arith in
        write_word-inside x v (write_word y w m) m k l h
        ∙ sym (
            write_word-other y w (write_word x v m) k
              (elim o [ inl z ↦ inl (omega arith) | inr z ↦ inr (omega arith) ]))
    at k (inr e) (inl f) =
        let l : y ≤ k = ground arith in
        let h : k < y + 4 = ground arith in
        let out : (k < x) ⊎ (x + 4 ≤ k) = elim o [
          | inl z ↦ inr (omega arith)
          | inr z ↦ inl (omega arith)
        ] in
        write_word-other x v (write_word y w m) k out
        ∙ write_word-inside y w m (write_word x v m) k l h
    at k (inr e) (inr f) =
        let out : (k < x) ⊎ (x + 4 ≤ k) = ground arith in
        let out' : (k < y) ⊎ (y + 4 ≤ k) = ground arith in
        write_word-other x v (write_word y w m) k out
        ∙ write_word-other y w m k out'
        ∙ sym (write_word-other y w (write_word x v m) k out' ∙ write_word-other x v m k out)

read_word-same :
    (m m' : Memory) (lo hi a : ℕ)
    → ((k : ℕ) → lo ≤ k → k < hi → m' k ≡ m k)
    → lo ≤ a
    → a + 4 ≤ hi
    → read_word m' a ≡ read_word m a
unfolding read_word
read_word-same m m' lo hi a f l h =
    rw
      (
        f a l (omega arith),
        f (a + 1) (omega arith) (omega arith),
        f (a + 2) (omega arith) (omega arith),
        f (a + 3) (omega arith) (omega arith),
      )
      refl

-- A free list does not depend on the words at null.
Chain-same :
    (m m' : Memory) (prev p lo : ℕ) (bs : Blocks) (hi stop : ℕ)
    → ((k : ℕ) → lo ≤ k → k < hi → m' k ≡ m k)
    → Inside lo bs hi
    → Chain m prev p bs stop
    → Chain m' prev p bs stop
unfolding entry_prev entry_next entry_size
Chain-same m m' prev p lo [] hi stop f i c = c
Chain-same m m' prev p lo ((a, s) ∷ bs) hi stop f (l, k, r) (e, b, z, c) =
    let t = Inside-bounds (a + s) bs hi r in
    (
      e,
      read_word-same m m' lo hi a f (omega arith) (omega arith) ∙ b,
      read_word-same m m' lo hi (a + 8) f (omega arith) (omega arith) ∙ z,
      subst (λ (n : ℕ). Chain m' a n bs stop)
          (sym (read_word-same m m' lo hi (a + 4) f (omega arith) (omega arith)))
          (Chain-same m m' a (entry_next m a) (a + s) bs hi stop (λ x u v. f x (omega arith) v) r
            c),
    )

pub IsFreeList-same :
    (m m' : Memory) (first : ℕ) (bs : Blocks)
    → ((k : ℕ) → 12 ≤ k → m' k ≡ m k)
    → IsFreeList m first bs
    → IsFreeList m' first bs
IsFreeList-same m m' first bs f is = record {
  inside = is.inside;
  chain = Chain-same m m' null first 12 bs (2 ^ 31) null (λ k l h. f k l) is.inside is.chain;
}

-- A block whose end has moved.
pub set_size-IsFreeList :
    (m : Memory) (first : ℕ) (xs : Blocks) (a s : ℕ) (ys : Blocks) (s' : ℕ)
    → Around m first xs a s ys
    → 12 ≤ s'
    → Inside (a + s') ys (2 ^ 31)
    → IsFreeList (set_size a s' m) first (xs ++ ((a, s') ∷ ys))
unfolding set_size entry_prev entry_next entry_size
set_size-IsFreeList m first xs a s ys s' ar k j =
    let top = Inside-bounds (a + s') ys (2 ^ 31) j in
    let room = ar.room in
    let m' = write_word (a + 8) s' m in
    let next_same : read_word m' (a + 4) ≡ read_word m (a + 4) =
      read_word-write_word_other (a + 8) s' m (a + 4) (inl (omega arith)) in
    let front =
      Chain-write m (a + 8) s' null first 12 xs a a ar.inside_front (inr (omega arith)) ar.front in
    let back =
      Chain-write m (a + 8) s' a (entry_next m a) (a + s) ys (2 ^ 31) null ar.inside_back
        (inl (omega arith)) ar.back in
    record {
      inside = Inside-append 12 xs ((a, s') ∷ ys) a (2 ^ 31) ar.inside_front (omega arith, k, j);
      chain = Chain-append m' null first xs ((a, s') ∷ ys) a null front (
        refl,
        read_word-write_word_other (a + 8) s' m a (inl (omega arith)) ∙ ar.prev_entry,
        read_word-write_word (a + 8) s' m (omega arith),
        subst (λ (n : ℕ). Chain m' a n ys null) (sym next_same) back,
      );
    }
