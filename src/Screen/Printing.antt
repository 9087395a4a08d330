-- ===== src/Screen/Printing.antt =====
-- What the screen of core/drivers/screen.cpp shows.
use juice_os_kernel.Prelude.{
  ℕ, zero, suc, ◌+◌, ◌-◌, ◌*◌, ◌≤◌, ◌<◌, ◌≡◌, refl, sym, ◌∙◌, subst, ◌≢◌, ◌⊎◌, inl, inr, true,
  false, ◌&&◌, Option, some, List, [], ◌∷◌, arith, ltb, leb, ◌==◌, if◌then◌else◌, ℕ_discrete,
  Bool-cases, length, get_elem?, get_or, set, length-set, get_elem?-set_self, get_elem?-set_ne,
}
use juice_os_kernel.Screen.Defs.{
  width, height, stdcolor, Screen, cell, update_scroll, putc_core, set_cursor_xy, printc, print,
}
use juice_os_kernel.Screen.Bounds.{
  IsWhole, cleared_cells, moved_cells, scrolled_cells, length-moved_cells,
}

get_elem?-get_or : (m : List ℕ) (i : ℕ) → i < length m → get_elem? m i ≡ some (get_or m i 0)
get_elem?-get_or [] i h = elim h [ ]
get_elem?-get_or (x ∷ m) zero h = refl
get_elem?-get_or (x ∷ m) (suc i) h = get_elem?-get_or m i (omega arith)

cleared_cells-outside :
    (n i c j : ℕ) (m : List ℕ)
    → (j < i) ⊎ (i + n ≤ j)
    → get_elem? (cleared_cells n i c m) j ≡ get_elem? m j
unfolding cleared_cells
cleared_cells-outside zero i c j m h = refl
cleared_cells-outside (suc n) i c j m h =
    let later : (j < i + 1) ⊎ (i + 1 + n ≤ j) = ground arith in
    cleared_cells-outside n (i + 1) c j (set m i c) later ∙ get_elem?-set_ne m c (ground arith)

cleared_cells-within :
    (n i c k : ℕ) (m : List ℕ)
    → k < n
    → i + n ≤ length m
    → get_elem? (cleared_cells n i c m) (i + k) ≡ some c
unfolding cleared_cells
cleared_cells-within zero i c k m h l = elim h [ ]
cleared_cells-within (suc n) i c zero m h l =
    let here : i + 0 ≡ i = omega arith in
    rw here (
      cleared_cells-outside n (i + 1) c i (set m i c) (inl (omega arith))
      ∙ get_elem?-set_self m i c (omega arith))
cleared_cells-within (suc n) i c (suc k) m h l =
    let e : i + suc k ≡ i + 1 + k = omega arith in
    let kept = length-set m i c in
    rw e (cleared_cells-within n (i + 1) c k (set m i c) (omega arith) (omega arith))

moved_cells-below :
    (n s t j : ℕ) (m : List ℕ) → j < t → get_elem? (moved_cells n s t m) j ≡ get_elem? m j
unfolding moved_cells
moved_cells-below zero s t j m h = refl
moved_cells-below (suc n) s t j m h =
    moved_cells-below n (s + 1) (t + 1) j (set m t (get_or m s 0)) (omega arith)
    ∙ get_elem?-set_ne m (get_or m s 0) (omega arith)

moved_cells-within :
    (n s t k : ℕ) (m : List ℕ)
    → t < s
    → k < n
    → s + n ≤ length m
    → get_elem? (moved_cells n s t m) (t + k) ≡ get_elem? m (s + k)
unfolding moved_cells
moved_cells-within zero s t k m u h l = elim h [ ]
moved_cells-within (suc n) s t zero m u h l =
    let here : t + 0 ≡ t = omega arith in
    let there : s + 0 ≡ s = omega arith in
    rw (here, there)
      (moved_cells-below n (s + 1) (t + 1) t (set m t (get_or m s 0)) (omega arith)
        ∙ (get_elem?-set_self m t (get_or m s 0) (omega arith)
            ∙ sym (get_elem?-get_or m s (omega arith))))
moved_cells-within (suc n) s t (suc k) m u h l =
    let here : t + suc k ≡ t + 1 + k = omega arith in
    let there : s + suc k ≡ s + 1 + k = omega arith in
    let kept = length-set m t (get_or m s 0) in
    rw (here, there)
      (moved_cells-within n (s + 1) (t + 1) k (set m t (get_or m s 0)) (omega arith) (omega arith)
          (omega arith)
        ∙ get_elem?-set_ne m (get_or m s 0) (omega arith))

-- Scrolling moves every row up by one, and leaves spaces in the last row.
pub get_elem?-scrolled_cells :
    (m : List ℕ) (j : ℕ)
    → length m ≡ width * height
    → j < width * height
    → get_elem? (scrolled_cells m) j ≡ (
        if ltb j (width * (height - 1)) then get_elem? m (width + j) else some (cell stdcolor b' '))
unfolding scrolled_cells
get_elem?-scrolled_cells m j w h = elim (Bool-cases (ltb j (width * (height - 1)))) [
  | inl e ↦
      let zeroed : 0 + j ≡ j = omega arith in
      rw e (
        cleared_cells-outside width (width * (height - 1)) _ j
          (moved_cells (width * (height - 1)) width 0 m) (inl (ground arith))
        ∙ (rw zeroed at (
            moved_cells-within (width * (height - 1)) width 0 j m (omega arith) (ground arith)
              (omega arith))))
  | inr e ↦
      let size = length-moved_cells (width * (height - 1)) width 0 m in
      let k =
        cleared_cells-within width (width * (height - 1)) (cell stdcolor b' ')
          (j - width * (height - 1)) (moved_cells (width * (height - 1)) width 0 m) (ground arith)
          (omega arith) in
      let at : width * (height - 1) + (j - width * (height - 1)) ≡ j = ground arith in
      rw e (rw at at k)
]

-- The cell `j` of a memory in which a text was written from `start` on.
unfoldable pub row_cell : (m : List ℕ) (start color : ℕ) (text : List ℕ) (j : ℕ) → Option ℕ
row_cell m start color text j =
    if leb start j && ltb j (start + length text)
    then some (cell color (get_or text (j - start) 0))
    else get_elem? m j

row_cell-empty : (m : List ℕ) (start color j : ℕ) → get_elem? m j ≡ row_cell m start color [] j
unfolding row_cell
row_cell-empty m start color j =
    let none_there : (leb start j && ltb j (start + 0)) ≡ false = ground arith in rw none_there refl

row_cell-set :
    (m : List ℕ) (start color ch : ℕ) (text : List ℕ) (j : ℕ)
    → start < length m
    → row_cell (set m start (cell color ch)) (start + 1) color text j
      ≡ row_cell m start color (ch ∷ text) j
unfolding row_cell
row_cell-set m start color ch text j h = elim (ℕ_discrete start j) [
  | yes e ↦
      let p : (leb (start + 1) j && ltb j (start + 1 + length text)) ≡ false = ground arith in
      let q : (leb start j && ltb j (start + suc (length text))) ≡ true = ground arith in
      let z : j - start ≡ 0 = omega arith in
      rw (p, q, z)
        (subst (λ i. get_elem? (set m start (cell color ch)) i ≡ some (cell color ch)) e
          (get_elem?-set_self m start (cell color ch) h))
  | no n ↦ elim (Bool-cases (leb start j && ltb j (start + suc (length text)))) [
    | inl q ↦
        let p : (leb (start + 1) j && ltb j (start + 1 + length text)) ≡ true = ground arith in
        let z : j - start ≡ suc (j - (start + 1)) = ground arith in rw (p, q, z) refl
    | inr q ↦
        let p : (leb (start + 1) j && ltb j (start + 1 + length text)) ≡ false = ground arith in
        rw (p, q) (get_elem?-set_ne m (cell color ch) n)
  ]
]

abbrev pub AllVisible : List ℕ → Type 0
AllVisible [] = Unit {0}
AllVisible (ch ∷ text) = (ch ≢ 0) × AllVisible text

printc-set :
    (ch : ℕ) (s : Screen)
    → s.cursor_x < width
    → s.cursor_y < height
    → printc ch s
      ≡ some (record s {
        video_memory = set s.video_memory (s.cursor_x + s.cursor_y * width) (cell s.print_color ch);
        cursor_x = s.cursor_x + 1;
      })
unfolding printc putc_core update_scroll set_cursor_xy
printc-set ch s h k =
    let in_row : leb width s.cursor_x ≡ false = ground arith in
    let on_screen : leb height s.cursor_y ≡ false = ground arith in
    let inside : ltb (s.cursor_x + s.cursor_y * width) (width * height) ≡ true = ground arith in
    rw (in_row, on_screen, inside) refl

-- A text that fits between the cursor and the end of its row is printed at the cursor and nowhere
-- else, in the colour that is set, and the cursor is behind it.
pub print-row_cell :
    (text : List ℕ) (n : ℕ) (s : Screen) (j : ℕ)
    → IsWhole s
    → AllVisible text
    → length text ≤ n
    → s.cursor_x + length text ≤ width
    → s.cursor_y < height
    → (s' : Screen) × (print text n s ≡ some s')
      × ((s'.cursor_x ≡ s.cursor_x + length text)
          × (s'.cursor_y ≡ s.cursor_y)
          × (get_elem? s'.video_memory j
              ≡ row_cell s.video_memory (s.cursor_x + s.cursor_y * width) s.print_color text j))
unfolding print
print-row_cell [] n s j w v l h k =
    (s, refl, (omega arith, refl, row_cell-empty s.video_memory _ s.print_color j))
print-row_cell (ch ∷ text) zero s j w v l h k = elim l [ ]
print-row_cell (ch ∷ text) (suc n) s j w (c, v) l h k =
    let start = s.cursor_x + s.cursor_y * width in
    let s1 : Screen = record s {
      video_memory = set s.video_memory start (cell s.print_color ch);
      cursor_x = s.cursor_x + 1;
    } in
    let w1 = length-set s.video_memory start (cell s.print_color ch) ∙ w in
    let (s2, q, (x, y, g)) = print-row_cell text n s1 j w1 v (omega arith) (omega arith) k in
    let e : (ch == 0) ≡ false = ground arith in
    let next : s.cursor_x + 1 + s.cursor_y * width ≡ start + 1 = omega arith in
    let x2 : s2.cursor_x ≡ s.cursor_x + suc (length text) = omega arith in
    let inside : start < length s.video_memory = omega arith in
    let typed = printc-set ch s (omega arith) k in
    (
      s2,
      rw (e, typed) q,
      (x2, y, g ∙ rw next (row_cell-set s.video_memory start s.print_color ch text j inside)),
    )
