-- ===== src/Syslog/Flattening.antt =====
-- Copies into the ring of core/kernel.cpp, and its contents in order.
use juice_os_kernel.Prelude.{
  ℕ, ◌+◌, ◌-◌, ◌≤◌, ◌<◌, ◌≡◌, refl, sym, ap, ◌∙◌, Bool, true, false, List, [], ◌∷◌, ◌++◌,
  append-nil, append_assoc, arith, ltb, if◌then◌else◌, length, set, take, drop, length-append,
}
use juice_os_kernel.Syslog.Tails.{
  last, drop-append, drop_past, take_front, drop_front, drop_all, last_whole, last-drop,
}
use juice_os_kernel.Syslog.Defs.{Syslog, syslog_length, mem_copy, append_portion, flatten_logs}

set_at : (A : List ℕ) (b x : ℕ) (B : List ℕ) → set (A ++ b ∷ B) (length A) x ≡ A ++ x ∷ B
set_at [] b x B = refl
set_at (a ∷ A) b x B = ap (◌∷◌ a) (set_at A b x B)

-- A copy that fits behind `A` overwrites as much of `B`.
mem_copy_at :
    (xs A B : List ℕ)
    → length xs ≤ length B
    → mem_copy xs (length A) (A ++ B) ≡ A ++ xs ++ drop (length xs) B
unfolding mem_copy
mem_copy_at [] A B h = rw append-nil
mem_copy_at (x ∷ xs) A [] h = absurd (omega arith)
mem_copy_at (x ∷ xs) A (b ∷ B) h =
    let e : length A + 1 ≡ length (A ++ x ∷ []) = omega (arith, length-append A (x ∷ [])) in
    let s : A ++ x ∷ B ≡ (A ++ x ∷ []) ++ B = sym (append_assoc A (x ∷ []) B) in
    rw (set_at A b x B, e, s)
      (mem_copy_at xs (A ++ x ∷ []) B (omega arith)
        ∙ ap (λ C. C ++ drop (length xs) B) (append_assoc A (x ∷ []) xs))

-- The state is two parts of the buffer: what lies before the write pointer, and what lies behind.
pub record IsValid (s : Syslog) : Type 0 where
  pub size : length s.buffer ≡ syslog_length
  pub within : s.write_ptr ≤ syslog_length

abbrev pub state : (A B : List ℕ) → Bool → Syslog
state A B w = record { buffer = A ++ B; write_ptr = length A; is_wrapped = w }

pub flatten-state :
    (A B : List ℕ) (w : Bool) → flatten_logs (state A B w) ≡ (if w then B ++ A else A)
unfolding flatten_logs
flatten-state A B w = rw (take_front A B, drop_front A B)

-- A portion that fits behind the write pointer.
pub append-fits :
    (A B p : List ℕ) (w : Bool)
    → length A + length B ≡ syslog_length
    → length p ≤ length B
    → append_portion p (state A B w) ≡ state (A ++ p) (drop (length p) B) w
unfolding append_portion
append-fits A B p w e h =
    let z : length A + length p - syslog_length ≡ 0 = omega arith in
    let k : length p - 0 ≡ length p = omega arith in
    let whole : take (length p) p ≡ p =
      ap (take (length p)) (sym (append-nil p)) ∙ take_front p [] in
    rw (z, k, whole, mem_copy_at p A B h, ← length-append A p)

-- A portion that fills the buffer and goes on at its start.
pub append-wraps :
    (A B p q : List ℕ) (w : Bool)
    → length A + length B ≡ syslog_length
    → length p ≡ length B
    → 0 < length q
    → length q ≤ syslog_length
    → append_portion (p ++ q) (state A B w) ≡ state q (drop (length q) (A ++ p)) true
unfolding append_portion
append-wraps A B p q w e h pos le =
    let n : length (p ++ q) ≡ length p + length q = length-append p q in
    let z : length A + length (p ++ q) - syslog_length ≡ length q = omega arith in
    let k : length (p ++ q) - length q ≡ length p = omega arith in
    let l : ltb 0 (length q) ≡ true = ground arith in
    let none_left : drop (length p) B ≡ [] = rw h (drop_all B) in
    let filled : mem_copy p (length A) (A ++ B) ≡ A ++ p =
      mem_copy_at p A B (omega arith) ∙ ap (λ D. (A ++ p) ++ D) none_left ∙ append-nil (A ++ p) in
    rw (
      z,
      k,
      l,
      take_front p q,
      drop_front p q,
      filled,
      mem_copy_at q [] (A ++ p) (omega (arith, length-append A p)),
    )

pub flatten-fits :
    (A B p : List ℕ) (w : Bool)
    → length A + length B ≡ syslog_length
    → length p ≤ length B
    → (if w then drop (length p) B ++ (A ++ p) else A ++ p)
      ≡ last syslog_length ((if w then B ++ A else A) ++ p)
flatten-fits A B p true e h = sym (
    last-drop syslog_length (length p) ((B ++ A) ++ p)
      (omega (arith, length-append (B ++ A) p, length-append B A))
    ∙ ap (drop (length p)) (append_assoc B A p)
    ∙ drop-append (length p) B (A ++ p) h)
flatten-fits A B p false e h =
    sym (last_whole syslog_length (A ++ p) (omega (arith, length-append A p)))

pub flatten-wraps :
    (A B p q : List ℕ) (w : Bool)
    → length A + length B ≡ syslog_length
    → length p ≡ length B
    → length q ≤ syslog_length
    → drop (length q) (A ++ p) ++ q ≡ last syslog_length ((if w then B ++ A else A) ++ (p ++ q))
flatten-wraps A B p q true e h le =
    let apq : (A ++ p) ++ q ≡ A ++ (p ++ q) = append_assoc A p q in
    sym (
      last-drop syslog_length (length B + length q) ((B ++ A) ++ (p ++ q))
        (omega (arith, length-append (B ++ A) (p ++ q), length-append B A, length-append p q))
      ∙ ap (drop (length B + length q)) (append_assoc B A (p ++ q))
      ∙ drop_past B (length q) (A ++ (p ++ q))
      ∙ ap (drop (length q)) (sym apq)
      ∙ drop-append (length q) (A ++ p) q (omega (arith, length-append A p)))
flatten-wraps A B p q false e h le = sym (
    last-drop syslog_length (length q) (A ++ (p ++ q))
      (omega (arith, length-append A (p ++ q), length-append p q))
    ∙ ap (drop (length q)) (sym (append_assoc A p q))
    ∙ drop-append (length q) (A ++ p) q (omega (arith, length-append A p)))
