-- ===== src/Prelude/Bits.antt =====
-- Bytes as lists of bits, lowest first, and checks of all the values of a small range.
use Prim.Native.Nat.{ℕ, zero, suc, ◌*◌, ◌/◌, ◌%◌, ◌<◌}
use mathlib.Core.Path.{◌≡◌, refl, ap, sym}
use mathlib.Core.Bool.{Bool, true, false, not, ◌&&◌}
use mathlib.Core.List.{List, [], ◌∷◌, ◌++◌, append_assoc}
use native.Mathlib.Omega.{arith}
use native.Mathlib.Decide.{ℕ_discrete}
use juice_os_kernel.Prelude.Tests.{◌==◌, if◌then◌else◌}
use juice_os_kernel.Prelude.Lists.{length, replicate, take, drop, length-append}

-- A Boolean test holds of every number below a bound.
unfoldable pub all_below : ℕ → (ℕ → Bool) → Bool
all_below zero test = true
all_below (suc k) test = if test k then all_below k test else false

pub all_below-at : (test : ℕ → Bool) (x k : ℕ) → x < k → all_below k test ≡ true → test x ≡ true
unfolding all_below
all_below-at test x zero lt e = elim lt [ ]
all_below-at test x (suc k) lt e = elim (ℕ_discrete x k) [
  | yes same ↦ ground arith
  | no other ↦ ground (arith, all_below-at test x k)
]

-- The `n` lowest bits of a number, lowest first.
unfoldable pub bits_of : ℕ → ℕ → List Bool
bits_of zero c = []
bits_of (suc n) c = (c % 2 == 1) ∷ bits_of n (c / 2)

pub length-bits_of : (n c : ℕ) → length (bits_of n c) ≡ n
unfolding bits_of
length-bits_of zero c = refl
length-bits_of (suc n) c = ap suc (length-bits_of n (c / 2))

-- The bitmap of a run of bytes.
unfoldable pub bits : List ℕ → List Bool
bits [] = []
bits (c ∷ cs) = bits_of 8 c ++ bits cs

-- Boolean equality of lists of bits.
abbrev pub bit_eq : Bool → Bool → Bool
bit_eq true b = b
bit_eq false b = not b

unfoldable pub bits_eq : List Bool → List Bool → Bool
bits_eq [] [] = true
bits_eq [] (y ∷ ys) = false
bits_eq (x ∷ xs) [] = false
bits_eq (x ∷ xs) (y ∷ ys) = bit_eq x y && bits_eq xs ys

bit_eq-eq : (x y : Bool) → bit_eq x y ≡ true → x ≡ y
bit_eq-eq true y h = ground arith
bit_eq-eq false y h = ground arith

pub bits_eq-eq : (xs ys : List Bool) → bits_eq xs ys ≡ true → xs ≡ ys
unfolding bits_eq
bits_eq-eq [] [] h = refl
bits_eq-eq [] (y ∷ ys) h = cc
bits_eq-eq (x ∷ xs) [] h = cc
bits_eq-eq (x ∷ xs) (y ∷ ys) h = ground (arith, bit_eq-eq x y, bits_eq-eq xs ys)

abbrev pub IsBytes : List ℕ → Type 0
IsBytes [] = Unit {0}
IsBytes (c ∷ cs) = (c < 256) × IsBytes cs

pub bits-append : (cs ds : List ℕ) → bits (cs ++ ds) ≡ bits cs ++ bits ds
unfolding bits
bits-append [] ds = refl
bits-append (c ∷ cs) ds =
    rw (bits-append cs ds) (sym (append_assoc (bits_of 8 c) (bits cs) (bits ds)))

pub length-bits : (cs : List ℕ) → length (bits cs) ≡ 8 * length cs
unfolding bits
length-bits [] = refl
length-bits (c ∷ cs) =
    omega (arith, length-append (bits_of 8 c) (bits cs), length-bits_of 8 c, length-bits cs)

pub IsBytes-append : (cs ds : List ℕ) → IsBytes cs → IsBytes ds → IsBytes (cs ++ ds)
IsBytes-append [] ds h k = k
IsBytes-append (c ∷ cs) ds h k = (h.0, IsBytes-append cs ds h.1 k)

pub IsBytes-take : (n : ℕ) (cs : List ℕ) → IsBytes cs → IsBytes (take n cs)
IsBytes-take zero cs h = tt
IsBytes-take (suc n) [] h = tt
IsBytes-take (suc n) (c ∷ cs) h = (h.0, IsBytes-take n cs h.1)

pub IsBytes-drop : (n : ℕ) (cs : List ℕ) → IsBytes cs → IsBytes (drop n cs)
IsBytes-drop zero cs h = h
IsBytes-drop (suc n) [] h = tt
IsBytes-drop (suc n) (c ∷ cs) h = IsBytes-drop n cs h.1

pub IsBytes-replicate : (n c : ℕ) → c < 256 → IsBytes (replicate n c)
IsBytes-replicate zero c h = tt
IsBytes-replicate (suc n) c h = (h, IsBytes-replicate n c h)
