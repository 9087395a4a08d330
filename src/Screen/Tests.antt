-- ===== src/Screen/Tests.antt =====
-- The text screen at concrete screens.
use juice_os_kernel.Prelude.{
  ℕ, ◌+◌, ◌*◌, ◌≡◌, refl, some, [], ◌∷◌, arith, length, get_elem?, replicate, length-replicate,
}
use juice_os_kernel.Screen.Defs.{width, Screen, cell, print}
use juice_os_kernel.Screen.Bounds.{IsWhole, print-some}
use juice_os_kernel.Screen.Printing.{row_cell, print-row_cell}

-- A screen of one character, with the cursor behind the last place.
abbrev full_screen : Screen
full_screen = record {
  video_memory = replicate 2000 0x741;
  print_color = 7;
  cursor_x = 80;
  cursor_y = 24;
}

-- The cursor is three places before the end of a row.
abbrev near_end : Screen
near_end = record {
  video_memory = replicate 2000 0x720;
  print_color = 0x47;
  cursor_x = 77;
  cursor_y = 2;
}

print-some_example : (s' : Screen) × (print (b'o' ∷ b'k' ∷ []) 5 full_screen ≡ some s') × IsWhole s'
print-some_example =
    print-some (b'o' ∷ b'k' ∷ []) 5 full_screen (length-replicate {A = ℕ} 2000 0x741)

print-row_cell_example :
    (s' : Screen) × (print (b'o' ∷ b'k' ∷ []) 5 near_end ≡ some s')
    × ((s'.cursor_x ≡ 77 + length {A = ℕ} (b'o' ∷ b'k' ∷ []))
        × (s'.cursor_y ≡ 2)
        × (get_elem? s'.video_memory 238
            ≡ row_cell near_end.video_memory (77 + 2 * width) 0x47 (b'o' ∷ b'k' ∷ []) 238))
print-row_cell_example =
    print-row_cell (b'o' ∷ b'k' ∷ []) 5 near_end 238 (length-replicate {A = ℕ} 2000 0x720)
      (omega arith, (omega arith, tt)) (omega arith) (omega arith) (omega arith)

shows_k : row_cell near_end.video_memory (77 + 2 * width) 0x47 (b'o' ∷ b'k' ∷ []) 238 ≡ some 0x476b
unfolding row_cell cell
shows_k = refl
