-- ===== src/Fat/NameTests.antt =====
-- The names of the entries of a directory, at concrete entries.
use juice_os_kernel.Prelude.{
  ℕ, ◌-◌, ◌*◌, ◌≤◌, ◌≡◌, refl, ◌⊎◌, true, false, none, some, List, [], ◌∷◌, ◌++◌, arith, take, drop,
  replicate, length-replicate, over,
}
use juice_os_kernel.Text.Copies.{c_string}
use juice_os_kernel.Fat.Layout.{u8, attributes, has_flag, seq_num, stored_checksum}
use juice_os_kernel.Fat.Entries.{
  Handled, handle_next, part_number, calculate_checksum, checksum_loop,
}
use juice_os_kernel.Fat.ShortNames.{meant_name, handle_next-short_name}
use juice_os_kernel.Fat.LongNames.{handle_all, parts_text, Parts, handle_all-long_name}
use juice_os_kernel.Fat.NameParts.{part_text, handle_next-part_place}
use juice_os_kernel.Fat.Files.{new_parser}

-- The entry of the file README.TXT.
abbrev pub readme : List ℕ
readme =
    b'R' ∷ b'E' ∷ b'A' ∷ b'D' ∷ b'M' ∷ b'E' ∷ b' ' ∷ b' ' ∷ b'T' ∷ b'X' ∷ b'T' ∷ 0x20 ∷ 0 ∷ 0 ∷ 0
    ∷ 0 ∷ 0 ∷ 0 ∷ 0 ∷ 0 ∷ 0 ∷ 0 ∷ 0 ∷ 0 ∷ 0 ∷ 0 ∷ 2 ∷ 0 ∷ 0 ∷ 4 ∷ 0 ∷ 0 ∷ []

abbrev pub name_buffer : List ℕ
name_buffer = replicate 256 b'?'

-- The entry of the directory SRC.D.
abbrev directory : List ℕ
directory =
    b'S'
    ∷ b'R'
    ∷ b'C'
    ∷ b' '
    ∷ b' '
    ∷ b' '
    ∷ b' '
    ∷ b' '
    ∷ b'D'
    ∷ b' '
    ∷ b' '
    ∷ 0x10
    ∷ drop 12 readme

handle_next-short_name_example :
    (s : Handled) × (handle_next readme name_buffer new_parser ≡ some s)
    × ((s.is_ready ≡ true) × (c_string s.filename_buff ≡ meant_name readme))
unfolding attributes u8
handle_next-short_name_example =
    handle_next-short_name readme name_buffer new_parser (omega arith) (omega arith) (omega arith)
      (omega arith) (omega arith) (omega arith) refl

readme_name :
    meant_name readme ≡ b'R' ∷ b'E' ∷ b'A' ∷ b'D' ∷ b'M' ∷ b'E' ∷ b'.' ∷ b'T' ∷ b'X' ∷ b'T' ∷ []
unfolding attributes has_flag u8
readme_name = refl

directory_name :
    meant_name directory ≡ b'S' ∷ b'R' ∷ b'C' ∷ b' ' ∷ b' ' ∷ b' ' ∷ b' ' ∷ b' ' ∷ b'D' ∷ []
unfolding attributes has_flag u8
directory_name = refl

-- The only part of a long name of two characters that belongs to the short name of `readme`.
abbrev part_of_readme : List ℕ
part_of_readme =
    0x41 ∷ b'm' ∷ 0 ∷ b'e' ∷ 0 ∷ 0 ∷ 0 ∷ 0xff ∷ 0xff ∷ 0xff ∷ 0xff ∷ 0x0F ∷ 0 ∷ 115 ∷ 0xff ∷ 0xff
    ∷ 0xff ∷ 0xff ∷ 0xff ∷ 0xff ∷ 0xff ∷ 0xff ∷ 0xff ∷ 0xff ∷ 0xff ∷ 0xff ∷ 0 ∷ 0 ∷ 0xff ∷ 0xff
    ∷ 0xff ∷ 0xff ∷ []

readme_checksum : calculate_checksum readme ≡ 115
unfolding calculate_checksum checksum_loop
readme_checksum = refl

part_of_readme-Parts : Parts (calculate_checksum readme) (part_of_readme ∷ [])
unfolding attributes u8 part_number seq_num has_flag stored_checksum calculate_checksum
    checksum_loop
part_of_readme-Parts = (omega arith, refl, refl, refl, tt)

handle_all-long_name_example :
    (s : Handled) × (handle_all
        ((part_of_readme ∷ []) ++ (readme ∷ []))
        name_buffer
        new_parser
        false
      ≡ some s)
    × ((s.is_ready ≡ true)
        × (s.filename_buff ≡ over (parts_text (part_of_readme ∷ [])) name_buffer))
unfolding attributes has_flag u8
handle_all-long_name_example =
    handle_all-long_name part_of_readme readme [] name_buffer new_parser part_of_readme-Parts
      (omega arith) (length-replicate {A = ℕ} 256 b'?') (omega arith) (omega arith) refl refl

abbrev twentieth_part : List ℕ
twentieth_part = 0x54 ∷ drop 1 part_of_readme

twentieth_number : part_number twentieth_part ≡ 20
unfolding part_number seq_num u8 has_flag
twentieth_number = refl

handle_next-part_place_example :
    ((1 ≤ part_number twentieth_part)
      × (part_number twentieth_part ≤ 19)
      × (handle_next twentieth_part name_buffer new_parser
          ≡ some (record {
            parser = record {
              parsing_long_filename = true;
              lfn_checksum = stored_checksum twentieth_part;
            };
            filename_buff =
                over
                  (take (13 * (part_number twentieth_part - 1)) name_buffer
                    ++ part_text twentieth_part)
                  name_buffer;
            is_ready = false;
          })))
    ⊎ (((part_number twentieth_part ≡ 0) ⊎ (20 ≤ part_number twentieth_part))
        × (handle_next twentieth_part name_buffer new_parser ≡ none))
unfolding u8 attributes
handle_next-part_place_example =
    handle_next-part_place twentieth_part name_buffer new_parser (omega arith) refl
      (length-replicate {A = ℕ} 256 b'?')
