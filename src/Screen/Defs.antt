-- ===== src/Screen/Defs.antt =====
-- The text screen of core/drivers/screen.cpp. A cell of the video memory, of two bytes, is one list entry. Only the row wraps around where it is an unsigned number: update_scroll keeps it below the height before an address is made of it.
use juice_os_kernel.Prelude.{
  ℕ, zero, suc, ◌+◌, ◌-◌, ◌*◌, ◌%◌, ◌^◌, Option, none, some, List, [], ◌∷◌, ltb, leb, ◌==◌,
  if◌then◌else◌, get_or, set,
}

abbrev pub width : ℕ
width = 80

abbrev pub height : ℕ
height = 25

abbrev pub stdcolor : ℕ
stdcolor = 0x07

-- `VIDEO_MEMORY`, with a cell for each `uint16`, and `outargs`.
pub record Screen : Type 0 where
  pub video_memory : List ℕ
  pub print_color : ℕ
  pub cursor_x : ℕ
  pub cursor_y : ℕ

unfoldable pub set_cursor_xy : (x y : ℕ) → Screen → Screen
set_cursor_xy x y s = record s { cursor_x = x; cursor_y = y }

-- `(color << 8) | (uint8)ch` of a `uint8` colour.
unfoldable pub cell : (color ch : ℕ) → ℕ
cell color ch = color * 256 + ch % 256

-- The memory behind a step that may leave the video memory.
abbrev pub after : {A B : Type 0} → Option A → (A → Option B) → Option B
after none next = none
after (some a) next = next a

-- A read or a write behind the video memory is `none`.
abbrev pub read_at : (address : ℕ) → List ℕ → Option ℕ
read_at address memory =
    if ltb address (width * height) then some (get_or memory address 0) else none

abbrev pub write_at : (address content : ℕ) → List ℕ → Option (List ℕ)
write_at address content memory =
    if ltb address (width * height) then some (set memory address content) else none

unfoldable pub clear_from : (n i : ℕ) → (content : ℕ) → List ℕ → Option (List ℕ)
clear_from zero i content memory = some memory
clear_from (suc n) i content memory =
    after (write_at i content memory) (λ m. clear_from n (i + 1) content m)

unfoldable pub clear : Screen → Option Screen
clear s =
    after (clear_from (width * height) 0 (cell stdcolor b' ') s.video_memory)
      (λ m. some (set_cursor_xy 0 0 (record s { print_color = stdcolor; video_memory = m })))

-- `mem_copy` of `n` cells from `source` to `target` in the one memory, from the front on.
unfoldable pub move_cells : (n source target : ℕ) → List ℕ → Option (List ℕ)
move_cells zero source target memory = some memory
move_cells (suc n) source target memory = after (read_at source memory) (λ content.
    after (write_at target content memory) (λ m. move_cells n (source + 1) (target + 1) m))

unfoldable pub scrolled : List ℕ → Option (List ℕ)
scrolled memory =
    after (move_cells (width * (height - 1)) width 0 memory)
      (clear_from width (width * (height - 1)) (cell stdcolor b' '))

-- The new row, and the screen.
unfoldable pub update_scroll : (y : ℕ) → Screen → Option (ℕ × Screen)
update_scroll y s =
    if leb height y
    then after (scrolled s.video_memory) (λ m. some (height - 1, record s { video_memory = m }))
    else some (y, s)

abbrev pub write_cell : (address content : ℕ) → Screen → Option Screen
write_cell address content s =
    after (write_at address content s.video_memory) (λ m. some (record s { video_memory = m }))

abbrev pub put_at : (x : ℕ) → (ch : ℕ) → ℕ × Screen → Option (ℕ × ℕ × Screen)
put_at x ch (y, s) =
    after (write_cell (x + y * width) (cell s.print_color ch) s) (λ s'. some (x + 1, y, s'))

-- The place behind the character, and the screen.
unfoldable pub putc_core : (pos_x pos_y ch : ℕ) → Screen → Option (ℕ × ℕ × Screen)
putc_core pos_x pos_y ch s =
    if leb width pos_x
    then after (update_scroll ((pos_y + 1) % 2 ^ 32) s) (put_at 0 ch)
    else after (update_scroll pos_y s) (put_at pos_x ch)

abbrev pub with_cursor : Option (ℕ × ℕ × Screen) → Option Screen
with_cursor none = none
with_cursor (some (x, y, s)) = some (set_cursor_xy x y s)

-- `printc` and `print` hand their cursor by reference.
unfoldable pub printc : (ch : ℕ) → Screen → Option Screen
printc ch s = with_cursor (putc_core s.cursor_x s.cursor_y ch s)

-- The text up to its end, its terminator or `buffer_length`.
unfoldable pub print : (source : List ℕ) → (buffer_length : ℕ) → Screen → Option Screen
print [] buffer_length s = some s
print (ch ∷ source) zero s = some s
print (ch ∷ source) (suc left) s =
    let rest : Option Screen = elim (printc ch s) [
      | none ↦ none
      | some s' ↦ print source left s'
    ] in
    if ch == 0 then some s else rest
