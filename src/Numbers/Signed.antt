-- ===== src/Numbers/Signed.antt =====
-- Signed numbers of core/stdlib.cpp as text: int_to_str and str_to_int.
use juice_os_kernel.Prelude.{
  ℕ, zero, suc, ◌-◌, ◌*◌, ◌/◌, ◌%◌, ◌^◌, ◌<◌, ◌≡◌, refl, ap, ◌∙◌, subst, ◌≢◌, inl, inr, false, ◌&&◌,
  none, some, List, [], ◌∷◌, ◌++◌, arith, leb, ◌==◌, ℕ_discrete, Bool-cases, length, get_or,
}
use native.Mathlib.Nat.{pow-le-pow_left}
use juice_os_kernel.Numbers.Defs.{
  unsigned_mod, digit_char, collect_digits, copy_down, uint_to_str, int_to_str, read_digits,
  str_to_uint, str_to_int, read_sign,
}
use juice_os_kernel.Numbers.Digits.{IsBase, collect_digits-some}
use juice_os_kernel.Numbers.Reading.{accepted, written, written_zero, str_to_uint-uint_to_str}

abbrev IsUnsigned : ℕ → Type 0
IsUnsigned ch = (ch ≢ b'-') × (ch ≢ b'+')

abbrev AllUnsigned : List ℕ → Type 0
AllUnsigned [] = Unit {0}
AllUnsigned (ch ∷ text) = IsUnsigned ch × AllUnsigned text

abbrev StartsUnsigned : List ℕ → Type 0
StartsUnsigned [] = Unit {0}
StartsUnsigned (ch ∷ text) = IsUnsigned ch

AllUnsigned-append :
    (t : List ℕ) (ch : ℕ) → AllUnsigned t → IsUnsigned ch → AllUnsigned (t ++ (ch ∷ []))
AllUnsigned-append [] ch a u = (u, tt)
AllUnsigned-append (x ∷ t) ch (v, a) u = (v, AllUnsigned-append t ch a u)

get_or-IsUnsigned : (t : List ℕ) (i : ℕ) → AllUnsigned t → IsUnsigned (get_or t i 0)
get_or-IsUnsigned [] i a = (omega arith, omega arith)
get_or-IsUnsigned (x ∷ t) zero (u, a) = u
get_or-IsUnsigned (x ∷ t) (suc i) (u, a) = get_or-IsUnsigned t i a

StartsUnsigned-append :
    (t : List ℕ) (ch : ℕ) → StartsUnsigned t → IsUnsigned ch → StartsUnsigned (t ++ (ch ∷ []))
StartsUnsigned-append [] ch a u = u
StartsUnsigned-append (x ∷ t) ch a u = a

copy_down-StartsUnsigned :
    (i : ℕ) (t out : List ℕ)
    → AllUnsigned t
    → StartsUnsigned out
    → StartsUnsigned (copy_down i t out)
unfolding copy_down
copy_down-StartsUnsigned zero t out a s = StartsUnsigned-append out 0 s (omega arith, omega arith)
copy_down-StartsUnsigned (suc i) t out a s =
    copy_down-StartsUnsigned i t _ a (StartsUnsigned-append out _ s (get_or-IsUnsigned t i a))

digit_char-IsUnsigned : (r : ℕ) → IsUnsigned (digit_char r)
unfolding digit_char
digit_char-IsUnsigned r = (ground arith, ground arith)

collect_digits-AllUnsigned :
    (free v base : ℕ) (temp t : List ℕ)
    → AllUnsigned temp
    → collect_digits free v base temp ≡ some t
    → AllUnsigned t
unfolding collect_digits
collect_digits-AllUnsigned zero v base temp t a e = elim (Bool-cases (v == 0)) [
  | inl f ↦
      let g : some temp ≡ some t = rw f at e in let same : temp ≡ t = cc in subst AllUnsigned same a
  | inr f ↦ let impossible : none ≡ some t = rw f at e in ground arith
]
collect_digits-AllUnsigned (suc free) v base temp t a e = elim (Bool-cases (v == 0)) [
  | inl f ↦
      let g : some temp ≡ some t = rw f at e in let same : temp ≡ t = cc in subst AllUnsigned same a
  | inr f ↦
      collect_digits-AllUnsigned free (v / base) base _ t
        (AllUnsigned-append temp _ a (digit_char-IsUnsigned (v % base))) (rw f at e)
]

uint_to_str-StartsUnsigned :
    (v base : ℕ) (text : List ℕ)
    → v < unsigned_mod
    → IsBase base
    → uint_to_str v base ≡ some text
    → StartsUnsigned text
uint_to_str-StartsUnsigned v base text h b e = elim (ℕ_discrete v 0) [
  | yes v0 ↦
      let w = written_zero v base b v0 in
      let same : (b'0' ∷ 0 ∷ []) ≡ text = cc in subst StartsUnsigned same (omega arith, omega arith)
  | no n ↦
      let wide : v < base ^ 32 = omega (arith, pow-le-pow_left {n = 2} {m = base} b.0 32) in
      let (t, c, l) = collect_digits-some 32 32 v base [] b (omega arith) wide in
      let w = written v base b n t c in
      let same : copy_down (length t) t [] ≡ text = cc in
      subst StartsUnsigned same (
        copy_down-StartsUnsigned (length t) t [] (collect_digits-AllUnsigned 32 v base [] t tt c)
          tt)
]

str_to_int-plain :
    (v base : ℕ) (text : List ℕ)
    → IsBase base
    → StartsUnsigned text
    → v < unsigned_mod
    → str_to_uint text base ≡ some v
    → str_to_int text base ≡ some v
unfolding str_to_int read_sign str_to_uint read_digits
str_to_int-plain v base [] b s h e =
    let impossible : none ≡ some v = rw (accepted base b) at e in ground arith
str_to_int-plain v base (ch ∷ text) b s h e =
    let f : (ch == b'-') ≡ false = ground arith in
    let g : (ch == b'+') ≡ false = ground arith in
    rw (accepted base b, f, g, e) (ap some (omega arith))

-- Every 32-bit signed value, given by its bits, is written in every base from 2 to 16, and
-- str_to_int reads the same value back: with a sign in base 10, as its bits in the other bases.
pub str_to_int-int_to_str :
    (v base : ℕ)
    → v < unsigned_mod
    → IsBase base
    → (text : List ℕ) × (int_to_str v base ≡ some text) × (str_to_int text base ≡ some v)
unfolding int_to_str
str_to_int-int_to_str v base h b = elim (Bool-cases (leb 0x80000000 v && (base == 10))) [
  | inr f ↦
      let (text, e, r) = str_to_uint-uint_to_str v base h b in
      (
        text,
        rw (f, e) refl,
        str_to_int-plain v base text b (uint_to_str-StartsUnsigned v base text h b e) h r,
      )
  | inl f ↦
      let (text, e, r) =
        str_to_uint-uint_to_str ((unsigned_mod - v) % unsigned_mod) base (omega arith) b in
      (
        b'-' ∷ text,
        rw (f, e) refl,
        negated base text ((unsigned_mod - v) % unsigned_mod) b r ∙ ap some (omega arith),
      )
]
  where
    negated :
        (base : ℕ) (text : List ℕ) (n : ℕ)
        → IsBase base
        → str_to_uint text base ≡ some n
        → str_to_int (b'-' ∷ text) base ≡ some (n * 0xffffffff % unsigned_mod)
    negated base text n b r = unfold str_to_int in unfold read_sign in rw (accepted base b, r) refl
