-- ===== src/Heap/Returning.antt =====
-- A block that is allocated and given back.
use juice_os_kernel.Prelude.{
  ℕ, zero, suc, ◌+◌, ◌-◌, ◌%◌, ◌^◌, ◌≤◌, ◌<◌, max, ◌≡◌, refl, ap, ◌∙◌, subst, ◌≢◌, ◌⊎◌, inl, inr,
  true, false, Option, some, [], ◌∷◌, arith, ltb, leb, ◌==◌, Bool-cases, length,
}
use juice_os_kernel.Heap.Memory.{Memory}
use juice_os_kernel.Heap.Defs.{
  null, FllAllocator, ok, entry_next, alloc, free, count_free, get_unused,
}
use juice_os_kernel.Heap.Chains.{Blocks, Inside, Chain}
use juice_os_kernel.Heap.Links.{IsFreeList}
use juice_os_kernel.Heap.Moves.{Elsewhere}
use juice_os_kernel.Heap.FirstFit.{fit_at, taken, without}
use juice_os_kernel.Heap.Allocating.{alloc-Allocated}
use juice_os_kernel.Heap.Freeing.{free-released}
use juice_os_kernel.Heap.Fitting.{IsJoined, fitting}

length-without : (wanted : ℕ) (bs : Blocks) → length (without wanted bs) ≤ length bs
length-without wanted [] = omega arith
length-without wanted ((a, s) ∷ bs) = elim (Bool-cases (leb wanted s)) [
  | inl e ↦ rw e (elim (Bool-cases (ltb (s - wanted) 12)) [
    | inl f ↦ rw f (omega arith)
    | inr f ↦ rw f (omega arith)
  ])
  | inr e ↦ let l = length-without wanted bs in rw e (omega arith)
]

Elsewhere-without :
    (wanted k : ℕ) (bs : Blocks) (a s : ℕ)
    → fit_at wanted bs ≡ some (a, s)
    → Elsewhere k bs
    → Elsewhere k (without wanted bs) × ((k < a) ⊎ (a + taken wanted s ≤ k))
Elsewhere-without wanted k [] a s f e = ground arith
Elsewhere-without wanted k ((b, t) ∷ bs) a s f (o, e) = elim (Bool-cases (leb wanted t)) [
  | inl y ↦
      let here : ◌≡◌ {A = Option (ℕ × ℕ)} (some (b, t)) (some (a, s)) = rw y at f in
      let at_a : b ≡ a = cc in
      let at_s : t ≡ s = cc in
      let out : (k < a) ⊎ (a + s ≤ k) = elim o [
        | inl z ↦ inl (omega arith)
        | inr z ↦ inr (omega arith)
      ] in
      rw y (elim (Bool-cases (ltb (t - wanted) 12)) [
        | inl g ↦ let g' : ltb (s - wanted) 12 ≡ true = ground arith in rw (g, g') (e, out)
        | inr g ↦
            let g' : ltb (s - wanted) 12 ≡ false = ground arith in
            let enough : wanted ≤ t = ground arith in
            let big : 12 ≤ t - wanted = ground arith in
            let left : (k < b + wanted) ⊎ (b + wanted + (t - wanted) ≤ k) = elim o [
              | inl z ↦ inl (omega arith)
              | inr z ↦ inr (omega arith)
            ] in
            let part : (k < a) ⊎ (a + wanted ≤ k) = elim out [
              | inl z ↦ inl z
              | inr z ↦ inr (omega arith)
            ] in
            rw (g, g') ((left, e), part)
      ])
  | inr y ↦
      let later : fit_at wanted bs ≡ some (a, s) = rw y at f in
      let (p, q) = Elsewhere-without wanted k bs a s later e in rw y ((o, p), q)
]

-- On a free list below 2^31 whose blocks do not touch, with a round of the loops for each block, a
-- block for a size above 0 and below 2^31 that alloc hands out, and that is given back at once
-- while another free block is left, restores the list, and no byte outside of the free blocks and
-- the two words at null is changed by the two together.
pub free-alloc_list :
    (h : FllAllocator) (bs : Blocks) (size fuel a s : ℕ)
    → IsFreeList h.memory h.first bs
    → IsJoined 0 bs
    → 0 < size
    → size < 2 ^ 31
    → length bs ≤ fuel
    → fit_at (max (size + 8) 12) bs ≡ some (a, s)
    → without (max (size + 8) 12) bs ≢ []
    → (h' : FllAllocator) × (h'' : FllAllocator) × (alloc fuel size h ≡ ok (a + 8, h'))
      × (free fuel (a + 8) h' ≡ ok h'')
      × IsFreeList h''.memory h''.first bs
      × ((k : ℕ) → Elsewhere k bs → h''.memory k ≡ h.memory k)
free-alloc_list h bs size fuel a s is j z w f e n =
    let wanted = max (size + 8) 12 in
    let fit = fitting wanted 12 0 bs (2 ^ 31) a s (omega arith) is.inside j e in
    let (_, low) = fit.behind in
    let (room, enough) = fit.room in
    let below = fit.below in
    let part : (12 ≤ taken wanted s) × (taken wanted s ≤ s) =
      taken_bounds wanted s (omega arith) enough room in
    let (h', p, q) = alloc-Allocated h bs size fuel a s is z w f e in
    let fewer = length-without wanted bs in
    let (h'', p', q') =
      free-released h' (without wanted bs) fuel a (taken wanted s) q.is_free_list n q.is_used
        fit.between low (part.0) (omega arith) (omega arith) in
    (
      h',
      h'',
      p,
      p',
      subst (IsFreeList h''.memory h''.first) fit.restored q'.is_free_list,
      λ k x. let (y, o) = Elsewhere-without wanted k bs a s e x in q'.same k y o ∙ q.same k x,
    )
  where
    taken_bounds :
        (wanted s : ℕ)
        → 12 ≤ wanted
        → wanted ≤ s
        → 12 ≤ s
        → (12 ≤ taken wanted s) × (taken wanted s ≤ s)
    taken_bounds wanted s l k r = ground arith

-- The bytes of the free blocks.
abbrev pub total : Blocks → ℕ
total [] = 0
total ((a, s) ∷ bs) = s + total bs

total-Inside : (lo : ℕ) (bs : Blocks) (hi : ℕ) → Inside lo bs hi → lo + total bs ≤ hi
total-Inside lo [] hi i = omega arith
total-Inside lo ((a, s) ∷ bs) hi (l, k, r) = let t = total-Inside (a + s) bs hi r in omega arith

count_free-total :
    (fuel : ℕ) (counter : ℕ) (m : Memory) (prev p lo : ℕ) (b t : ℕ) (bs : Blocks)
    → Inside lo ((b, t) ∷ bs) (2 ^ 31)
    → 0 < lo
    → Chain m prev p ((b, t) ∷ bs) null
    → suc (length bs) ≤ fuel
    → counter + total ((b, t) ∷ bs) < 2 ^ 32
    → count_free fuel counter p m ≡ ok (counter + total ((b, t) ∷ bs))
unfolding count_free
count_free-total zero counter m prev p lo b t bs i z c f w = ground arith
count_free-total (suc fuel) counter m prev p lo b t [] i z (q, _, v, n) f w =
    let sum : (counter + t) % 2 ^ 32 ≡ counter + (t + 0) = omega arith in rw (q, v, n, sum) refl
count_free-total (suc fuel) counter m prev p lo b t ((c, u) ∷ bs) (l, k, i) z (q, _, v, n) f w =
    let sum : (counter + t) % 2 ^ 32 ≡ counter + t = omega arith in
    let next : entry_next m b ≡ c = n.0 in
    let more : (c == 0) ≡ false = let x = i.0 in ground arith in
    rw (q, v, next, more, sum)
      (count_free-total fuel (counter + t) m b c (b + t) c u bs i (omega arith)
          (subst (λ (x : ℕ). Chain m b x ((c, u) ∷ bs) null) next n) (omega arith) (omega arith)
        ∙ ap ok (omega arith))

-- With a free block, get_unused ends and returns the bytes of all free blocks.
pub get_unused-total :
    (h : FllAllocator) (bs : Blocks) (fuel : ℕ)
    → IsFreeList h.memory h.first bs
    → bs ≢ []
    → length bs ≤ fuel
    → get_unused fuel h ≡ ok (total bs)
unfolding get_unused
get_unused-total h [] fuel is n f = elim (n refl) [ ]
get_unused-total h ((b, t) ∷ bs) fuel is n f =
    let sum = total-Inside 12 ((b, t) ∷ bs) (2 ^ 31) is.inside in
    count_free-total fuel 0 h.memory null h.first 12 b t bs is.inside (omega arith) is.chain f
      (omega arith)
    ∙ ap ok (omega arith)
