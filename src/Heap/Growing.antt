-- ===== src/Heap/Growing.antt =====
-- The list of free blocks that a block is freed into, and a block that grows by it.
use juice_os_kernel.Prelude.{
  ℕ, ◌+◌, ◌-◌, ◌%◌, ◌^◌, ◌≤◌, ◌<◌, ◌≡◌, ◌⊎◌, inl, inr, [], ◌∷◌, ◌++◌, arith, leb, ◌==◌,
  if◌then◌else◌,
}
use juice_os_kernel.Heap.Memory.{write_word-other}
use juice_os_kernel.Heap.Defs.{
  FllAllocator, entry_size, set_size, llist_grow_up, move_entry, distance,
}
use juice_os_kernel.Heap.Chains.{Blocks, Inside, Inside-bounds, Inside-weaken}
use juice_os_kernel.Heap.Links.{IsFreeList}
use juice_os_kernel.Heap.Entries.{Around}
use juice_os_kernel.Heap.Moves.{Elsewhere, Elsewhere-split, move_entry-IsFreeList, move_entry-same}
use juice_os_kernel.Heap.Swaps.{set_size-IsFreeList}

-- A block in front of free blocks, joined with the next one where that begins at its end.
abbrev pub joined : (a s : ℕ) → Blocks → Blocks
joined a s [] = (a, s) ∷ []
joined a s ((b, t) ∷ bs) = if a + s == b then (a, s + t) ∷ bs else (a, s) ∷ (b, t) ∷ bs

-- Free blocks with one more, joined with its neighbours.
abbrev pub released : (a s : ℕ) → Blocks → Blocks
released a s [] = (a, s) ∷ []
released a s ((b, t) ∷ bs) =
    let later = released a s bs in
    if b + t == a
    then joined b (t + s) bs
    else if leb (a + s) b
    then joined a s ((b, t) ∷ bs)
    else (b, t) ∷ later

-- What a block that is given back leaves.
pub record Freed (h : FllAllocator) (bs : Blocks) (a s : ℕ) (bs' : Blocks) (h' : FllAllocator)
    : Type 0 where
  pub is_free_list : IsFreeList h'.memory h'.first bs'
  pub same : (k : ℕ) → Elsewhere k bs → (k < a) ⊎ (a + s ≤ k) → h'.memory k ≡ h.memory k

pub distance-above : (x y : ℕ) → y ≤ x → x < 2 ^ 31 → distance x y ≡ x - y
unfolding distance
distance-above x y h l = omega arith

pub distance-below : (x y : ℕ) → x < y → y ≤ 2 ^ 31 → distance x y ≡ 2 ^ 32 - (y - x)
unfolding distance
distance-below x y h l = omega arith

pub Elsewhere-append :
    (k : ℕ) (xs ys : Blocks) → Elsewhere k xs → Elsewhere k ys → Elsewhere k (xs ++ ys)
Elsewhere-append k [] ys e f = f
Elsewhere-append k (x ∷ xs) ys (o, e) f = (o, Elsewhere-append k xs ys e f)

-- The block ends where an entry begins.
pub llist_grow_up-Freed :
    (h : FllAllocator) (xs : Blocks) (b t : ℕ) (ys : Blocks) (a s : ℕ)
    → Around h.memory h.first xs b t ys
    → Inside 12 xs a
    → a + s ≡ b
    → 12 ≤ s
    → Freed h (xs ++ ((b, t) ∷ ys)) a s (xs ++ ((a, s + t) ∷ ys)) (llist_grow_up b s h)
unfolding llist_grow_up
llist_grow_up-Freed h xs b t ys a s ar i e w =
    let top = Inside-bounds (b + t) ys (2 ^ 31) ar.inside_back in
    let low = Inside-bounds 12 xs a i in
    let place : (b + 2 ^ 32 - s) % 2 ^ 32 ≡ a = omega arith in
    let size : (entry_size h.memory b + s) % 2 ^ 32 ≡ s + t = omega (arith, ar.size_entry) in
    let j : Inside (a + (s + t)) ys (2 ^ 31) =
      Inside-weaken (b + t) (a + (s + t)) ys (2 ^ 31) (2 ^ 31) (omega arith) (omega arith)
        ar.inside_back in
    let h' = move_entry b a (s + t) h in
    let made : Freed h (xs ++ ((b, t) ∷ ys)) a s (xs ++ ((a, s + t) ∷ ys)) h' = record {
      is_free_list =
          move_entry-IsFreeList h xs b t ys ar a (s + t) (omega arith) (omega arith) i j
            (omega arith);
      same = λ k u v.
          let (x, (_, y)) = Elsewhere-split k xs ((b, t) ∷ ys) u in
          move_entry-same h xs b t ys ar a (s + t) k (omega arith) (omega arith) i j (omega arith)
            (elim v [ inl z ↦ inl z | inr z ↦ inr (omega arith) ]) x y;
    } in
    rw (place, size) made

-- The block begins where an entry ends, and the next entry is apart.
pub grown-Freed :
    (h : FllAllocator) (xs : Blocks) (b t : ℕ) (ys : Blocks) (a s : ℕ)
    → Around h.memory h.first xs b t ys
    → b + t ≡ a
    → Inside (a + s) ys (2 ^ 31)
    → Freed h
        (xs ++ ((b, t) ∷ ys))
        a
        s
        (xs ++ ((b, t + s) ∷ ys))
        (record h { memory = set_size b (t + s) h.memory })
unfolding set_size
grown-Freed h xs b t ys a s ar e j =
    let room = ar.room in
    record {
      is_free_list =
          set_size-IsFreeList h.memory h.first xs b t ys (t + s) ar (omega arith) (
            Inside-weaken (a + s) (b + (t + s)) ys (2 ^ 31) (2 ^ 31) (omega arith) (omega arith) j);
      same = λ k u v.
          let (x, (o, y)) = Elsewhere-split k xs ((b, t) ∷ ys) u in
          write_word-other (b + 8) (t + s) h.memory k
            (elim o [ inl z ↦ inl (omega arith) | inr z ↦ inr (omega arith) ]);
    }
