-- ===== src/Heap/Fitting.antt =====
-- A block that is free, where it fits between the others.
use juice_os_kernel.Prelude.{
  ℕ, ◌+◌, ◌-◌, ◌≤◌, ◌<◌, ◌≡◌, refl, ap, subst, inl, inr, true, false, Option, some, [], ◌∷◌, arith,
  ltb, leb, ◌==◌, Bool-cases,
}
use juice_os_kernel.Heap.Chains.{Blocks, Inside, Inside-bounds}
use juice_os_kernel.Heap.FirstFit.{fit_at, taken, left_of, without}
use juice_os_kernel.Heap.Growing.{released}
use juice_os_kernel.Heap.Extending.{Between}

-- No two blocks touch, and the first one does not touch what ends at `e`.
abbrev pub IsJoined : (e : ℕ) → Blocks → Type 0
IsJoined e [] = Unit {0}
IsJoined e ((a, s) ∷ bs) = (e < a) × IsJoined (a + s) bs

-- A block that fits, and what is left around it.
pub record Fitting (wanted lo e : ℕ) (bs : Blocks) (hi a s : ℕ) : Type 0 where
  pub behind : (e < a) × (lo ≤ a)
  pub room : (12 ≤ s) × (wanted ≤ s)
  pub below : a + s ≤ hi
  pub between : Between a (taken wanted s) (without wanted bs)
  pub restored : released a (taken wanted s) (without wanted bs) ≡ bs

Between-behind : (a s lo : ℕ) (bs : Blocks) (hi : ℕ) → a + s ≤ lo → Inside lo bs hi → Between a s bs
Between-behind a s lo [] hi h i = tt
Between-behind a s lo ((b, t) ∷ bs) hi h (l, k, r) =
    (inr (omega arith), Between-behind a s (b + t) bs hi (omega arith) r)

released_apart :
    (a s lo : ℕ) (bs : Blocks) (hi : ℕ)
    → Inside lo bs hi
    → IsJoined (a + s) bs
    → 0 < s
    → released a s bs ≡ (a, s) ∷ bs
released_apart a s lo [] hi i j w = refl
released_apart a s lo ((b, t) ∷ bs) hi (l, k, r) (g, j) w =
    let other : (b + t == a) ≡ false = ground arith in
    let front : leb (a + s) b ≡ true = ground arith in
    let apart : (a + s == b) ≡ false = ground arith in rw (other, front, apart) refl

released_left :
    (a s wanted : ℕ) (bs : Blocks)
    → wanted ≤ s
    → 0 < wanted
    → released a wanted ((a + wanted, s - wanted) ∷ bs) ≡ (a, s) ∷ bs
released_left a s wanted bs h w =
    let other : (a + wanted + (s - wanted) == a) ≡ false = ground arith in
    let front : leb (a + wanted) (a + wanted) ≡ true = ground arith in
    let here : (a + wanted == a + wanted) ≡ true = ground arith in
    let sum : wanted + (s - wanted) ≡ s = omega arith in rw (other, front, here, sum) refl

fitting_here :
    (wanted lo e : ℕ) (bs : Blocks) (hi a s : ℕ)
    → 12 ≤ wanted
    → wanted ≤ s
    → Inside lo ((a, s) ∷ bs) hi
    → IsJoined e ((a, s) ∷ bs)
    → Between a (taken wanted s) (left_of wanted a s bs)
      × (released a (taken wanted s) (left_of wanted a s bs) ≡ (a, s) ∷ bs)
fitting_here wanted lo e bs hi a s w k (l, x, r) (g, j) = elim (Bool-cases (ltb (s - wanted) 12)) [
  | inl f ↦ rw f (
    Between-behind a s (a + s) bs hi (omega arith) r,
    released_apart a s (a + s) bs hi r j (omega arith),
  )
  | inr f ↦ rw f (
    (inr (omega arith), Between-behind a wanted (a + s) bs hi (omega arith) r),
    released_left a s wanted bs k (omega arith),
  )
]

pub fitting :
    (wanted lo e : ℕ) (bs : Blocks) (hi a s : ℕ)
    → 12 ≤ wanted
    → Inside lo bs hi
    → IsJoined e bs
    → fit_at wanted bs ≡ some (a, s)
    → Fitting wanted lo e bs hi a s
fitting wanted lo e [] hi a s w i j f = ground arith
fitting wanted lo e ((b, t) ∷ bs) hi a s w (l, x, r) (g, j) f = elim (Bool-cases (leb wanted t)) [
  | inl y ↦
      let here : ◌≡◌ {A = Option (ℕ × ℕ)} (some (b, t)) (some (a, s)) = rw y at f in
      let at_a : b ≡ a = cc in
      let at_s : t ≡ s = cc in
      let top = Inside-bounds (b + t) bs hi r in
      let made : Fitting wanted lo e ((b, t) ∷ bs) hi b t =
        let (p, q) = fitting_here wanted lo e bs hi b t w (ground arith) (l, x, r) (g, j) in
        record {
          behind = (g, l);
          room = (x, ground arith);
          below = top;
          between = (rw y p);
          restored = (rw y q);
        } in
      subst (λ (z : ℕ). Fitting wanted lo e ((b, t) ∷ bs) hi z s) at_a
        (subst (λ (z : ℕ). Fitting wanted lo e ((b, t) ∷ bs) hi b z) at_s made)
  | inr y ↦
      let later : fit_at wanted bs ≡ some (a, s) = rw y at f in
      let rest = fitting wanted (b + t) (b + t) bs hi a s w r j later in
      let (c, d) = rest.behind in
      let other : (b + t == a) ≡ false = ground arith in
      let not_front : leb (a + taken wanted s) b ≡ false = ground arith in
      record {
        behind = (omega arith, omega arith);
        room = rest.room;
        below = rest.below;
        between = (rw y (inl (omega arith), rest.between));
        restored = (rw (y, other, not_front) (ap ((b, t) ∷◌) rest.restored));
      }
]
