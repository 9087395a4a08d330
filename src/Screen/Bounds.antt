-- ===== src/Screen/Bounds.antt =====
-- The writes of core/drivers/screen.cpp stay within the video memory.
use juice_os_kernel.Prelude.{
  ℕ, zero, suc, ◌+◌, ◌-◌, ◌*◌, ◌%◌, ◌^◌, ◌≤◌, ◌<◌, ◌≡◌, refl, ap, ◌∙◌, inl, inr, true, Option, some,
  List, [], ◌∷◌, arith, ltb, leb, ◌==◌, Bool-cases, length, get_or, set, length-set,
}
use juice_os_kernel.Screen.Defs.{
  width, height, stdcolor, Screen, cell, after, clear_from, move_cells, scrolled, update_scroll,
  put_at, putc_core, set_cursor_xy, printc, print,
}

-- The video memory has its size.
abbrev pub IsWhole : Screen → Type 0
IsWhole s = length s.video_memory ≡ width * height

-- What the loops leave, as plain changes of the memory.
unfoldable pub cleared_cells : (n i : ℕ) → (content : ℕ) → List ℕ → List ℕ
cleared_cells zero i content memory = memory
cleared_cells (suc n) i content memory = cleared_cells n (i + 1) content (set memory i content)

unfoldable pub moved_cells : (n source target : ℕ) → List ℕ → List ℕ
moved_cells zero source target memory = memory
moved_cells (suc n) source target memory =
    moved_cells n (source + 1) (target + 1) (set memory target (get_or memory source 0))

unfoldable pub scrolled_cells : List ℕ → List ℕ
scrolled_cells memory =
    cleared_cells width (width * (height - 1)) (cell stdcolor b' ')
      (moved_cells (width * (height - 1)) width 0 memory)

-- Within the video memory the loops leave nothing out.
clear_from-cleared_cells :
    (n i c : ℕ) (m : List ℕ)
    → i + n ≤ width * height
    → clear_from n i c m ≡ some (cleared_cells n i c m)
unfolding clear_from cleared_cells
clear_from-cleared_cells zero i c m h = refl
clear_from-cleared_cells (suc n) i c m h =
    let inside : ltb i (width * height) ≡ true = ground arith in
    rw inside (clear_from-cleared_cells n (i + 1) c (set m i c) (omega arith))

move_cells-moved_cells :
    (n i j : ℕ) (m : List ℕ)
    → i + n ≤ width * height
    → j + n ≤ width * height
    → move_cells n i j m ≡ some (moved_cells n i j m)
unfolding move_cells moved_cells
move_cells-moved_cells zero i j m h k = refl
move_cells-moved_cells (suc n) i j m h k =
    let read : ltb i (width * height) ≡ true = ground arith in
    let written : ltb j (width * height) ≡ true = ground arith in
    rw (read, written)
      (move_cells-moved_cells n (i + 1) (j + 1) (set m j (get_or m i 0)) (omega arith)
        (omega arith))

scrolled-scrolled_cells : (m : List ℕ) → scrolled m ≡ some (scrolled_cells m)
unfolding scrolled scrolled_cells
scrolled-scrolled_cells m =
    ap
      (λ (o : Option (List ℕ)).
        after o (clear_from width (width * (height - 1)) (cell stdcolor b' ')))
      (move_cells-moved_cells (width * (height - 1)) width 0 m (omega arith) (omega arith))
    ∙ clear_from-cleared_cells width (width * (height - 1)) (cell stdcolor b' ') _ (omega arith)

length-cleared_cells : (n i c : ℕ) (m : List ℕ) → length (cleared_cells n i c m) ≡ length m
unfolding cleared_cells
length-cleared_cells zero i c m = refl
length-cleared_cells (suc n) i c m = length-cleared_cells n (i + 1) c (set m i c) ∙ length-set m i c

pub length-moved_cells : (n i j : ℕ) (m : List ℕ) → length (moved_cells n i j m) ≡ length m
unfolding moved_cells
length-moved_cells zero i j m = refl
length-moved_cells (suc n) i j m =
    length-moved_cells n (i + 1) (j + 1) (set m j (get_or m i 0)) ∙ length-set m j (get_or m i 0)

length-scrolled_cells : (m : List ℕ) → length (scrolled_cells m) ≡ length m
unfolding scrolled_cells
length-scrolled_cells m =
    length-cleared_cells _ _ _ (moved_cells (width * (height - 1)) width 0 m)
    ∙ length-moved_cells _ _ _ m

-- `update_scroll` stays within the video memory, gives a row of the screen, and keeps the size.
abbrev Scrolls : ℕ → Screen → Type 0
Scrolls y s =
    (y' : ℕ) × (s' : Screen) × (update_scroll y s ≡ some (y', s'))
    × ((y' < height) × (length s'.video_memory ≡ length s.video_memory))

update_scroll-Scrolls : (y : ℕ) (s : Screen) → Scrolls y s
unfolding update_scroll
update_scroll-Scrolls y s = elim (Bool-cases (leb height y)) [
  | inl e ↦ (
    height - 1,
    record s { video_memory = scrolled_cells s.video_memory },
    rw (e, scrolled-scrolled_cells s.video_memory) refl,
    (omega arith, length-scrolled_cells s.video_memory),
  )
  | inr e ↦ (y, s, rw e refl, (ground arith, refl))
]

-- What a write at a place of the screen comes to.
abbrev pub Placed : Option (ℕ × ℕ × Screen) → Type 0
Placed o =
    (x : ℕ) × (y : ℕ) × (s' : Screen) × (o ≡ some (x, y, s'))
    × ((1 ≤ x) × (x ≤ width) × (y < height) × IsWhole s')

put_at-Placed :
    (x ch y : ℕ) (s : Screen) → x < width → y < height → IsWhole s → Placed (put_at x ch (y, s))
put_at-Placed x ch y s h k w =
    let inside : ltb (x + y * width) (width * height) ≡ true = ground arith in
    (
      x + 1,
      y,
      record s { video_memory = set s.video_memory (x + y * width) (cell s.print_color ch) },
      rw inside refl,
      (omega arith, omega arith, k, length-set s.video_memory _ _ ∙ w),
    )

pub putc_core-Placed : (x y ch : ℕ) (s : Screen) → IsWhole s → Placed (putc_core x y ch s)
unfolding putc_core
putc_core-Placed x y ch s w = elim (Bool-cases (leb width x)) [
  | inl e ↦
      let (y', s', p, (b, l)) = update_scroll-Scrolls ((y + 1) % 2 ^ 32) s in
      rw (e, p) (put_at-Placed 0 ch y' s' (omega arith) b (l ∙ w))
  | inr e ↦
      let (y', s', p, (b, l)) = update_scroll-Scrolls y s in
      rw (e, p) (put_at-Placed x ch y' s' (ground arith) b (l ∙ w))
]

-- From any cursor a text is printed, with the scrolling that it needs, without a read or a write
-- behind the video memory, whose size is kept.
pub print-some :
    (text : List ℕ) (n : ℕ) (s : Screen)
    → IsWhole s
    → (s' : Screen) × (print text n s ≡ some s') × IsWhole s'
unfolding print printc set_cursor_xy
print-some [] n s w = (s, refl, w)
print-some (ch ∷ text) zero s w = (s, refl, w)
print-some (ch ∷ text) (suc n) s w = elim (Bool-cases (ch == 0)) [
  | inl e ↦ (s, rw e refl, w)
  | inr e ↦
      let (x, y, s1, p, (a, b, c, w1)) = putc_core-Placed s.cursor_x s.cursor_y ch s w in
      let (s2, q, w2) = print-some text n (record s1 { cursor_x = x; cursor_y = y }) w1 in
      (s2, rw (e, p) q, w2)
]
