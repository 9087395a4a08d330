-- ===== src/Fat/Entries.antt =====
-- The directory entries of core/filesystems/fat.cpp: EntryParser. A name buffer has the 256 bytes that the parser asks for.
use juice_os_kernel.Prelude.{
  ℕ, ◌+◌, ◌-◌, ◌*◌, ◌/◌, ◌%◌, Bool, true, false, ◌&&◌, ◌||◌, Option, none, some, List, [], ◌∷◌,
  ◌==◌, if◌then◌else◌, take, drop,
}
use juice_os_kernel.Text.Defs.{utf16_to_ascii, spaced_string_to_cstr, strlcpy}
use juice_os_kernel.Fat.Layout.{
  u8, attributes, seq_num, stored_checksum, name_chars, has_flag, fattr_lfn, fattr_device,
  fattr_unused, fattr_subdirectory, fattr_volumelabel,
}

-- The loop of `calculate_checksum` over the bytes of a short name; the sum has eight bits.
unfoldable pub checksum_loop : (checksum : ℕ) → (shortname : List ℕ) → ℕ
checksum_loop checksum [] = checksum
checksum_loop checksum (ch ∷ shortname) =
    checksum_loop (((if checksum % 2 == 1 then 0x80 else 0) + checksum / 2 + ch) % 256) shortname

unfoldable pub calculate_checksum : (shortname : List ℕ) → ℕ
calculate_checksum shortname = checksum_loop 0 (take 11 shortname)

pub record EntryParser : Type 0 where
  pub parsing_long_filename : Bool
  pub lfn_checksum : ℕ

-- The size of the buffer that a caller hands on.
abbrev pub max_filename_size : ℕ
max_filename_size = 256

-- What a call leaves: the parser, the buffer, and whether a name is ready.
pub record Handled : Type 0 where
  pub parser : EntryParser
  pub filename_buff : List ℕ
  pub is_ready : Bool

-- The number of a part of a long name, without the flag of the last one.
unfoldable pub part_number : List ℕ → ℕ
part_number entry = seq_num entry - (if has_flag (seq_num entry) 0x40 then 0x40 else 0)

-- The name buffer is taken to lie at the address 13, so that the place of the number 0, whose
-- `lfnOffset` is -13, has the address 0.
abbrev pub buffer_address : ℕ
buffer_address = 13

abbrev pub after_part : (entry : List ℕ) → Option (List ℕ) → Option Handled
after_part entry none = none
after_part entry (some filename_buff) = some (record {
  parser = record { parsing_long_filename = true; lfn_checksum = stored_checksum entry };
  filename_buff = filename_buff;
  is_ready = false;
})

-- A part of a long name, at `13 * (number - 1)` behind the start of the buffer.
unfoldable pub handle_lfn : (entry : List ℕ) → (filename_buff : List ℕ) → Option Handled
handle_lfn entry filename_buff = after_part entry (
    utf16_to_ascii (buffer_address + 13 * part_number entry - 13) (name_chars entry) 13
      buffer_address filename_buff)

-- The short name of a file, in the order of the copies: the extension without the spaces at its
-- end, behind the dot, behind the name without the spaces at its end.
unfoldable pub add_extension : (entry : List ℕ) → (at : ℕ) → List ℕ → List ℕ
add_extension entry at filename_buff =
    (spaced_string_to_cstr at 3 (strlcpy (drop 8 entry) at 4 filename_buff).0).0

unfoldable pub add_dot : (entry : List ℕ) → List ℕ × ℕ → List ℕ
add_dot entry (filename_buff, result_ptr) =
    let (dotted, dot_length) = strlcpy (b'.' ∷ 0 ∷ []) result_ptr 2 filename_buff in
    add_extension entry (result_ptr + dot_length) dotted

unfoldable pub file_short_name : (entry : List ℕ) → (filename_buff : List ℕ) → List ℕ
file_short_name entry filename_buff =
    add_dot entry (spaced_string_to_cstr 0 8 (strlcpy entry 0 9 filename_buff).0)

unfoldable pub other_short_name : (entry : List ℕ) → (filename_buff : List ℕ) → List ℕ
other_short_name entry filename_buff =
    let (named, name_length) = strlcpy entry 0 9 filename_buff in
    let (extended, _) = strlcpy (drop 8 entry) name_length 4 named in
    (spaced_string_to_cstr 0 11 extended).0

unfoldable pub short_name : (entry : List ℕ) → (filename_buff : List ℕ) → List ℕ
short_name entry filename_buff =
    if has_flag (attributes entry) fattr_subdirectory
      || has_flag (attributes entry) fattr_volumelabel
    then other_short_name entry filename_buff
    else file_short_name entry filename_buff

-- A parser whose checksum does not fit stays in its state.
unfoldable pub handle_next :
    (entry : List ℕ) → (filename_buff : List ℕ) → EntryParser → Option Handled
handle_next entry filename_buff parser =
    let idle : EntryParser = record parser { parsing_long_filename = false } in
    if u8 entry 0 == 0xE5
    then some (record { parser = idle; filename_buff = filename_buff; is_ready = false })
    else if attributes entry == fattr_lfn
    then handle_lfn entry filename_buff
    else if has_flag (attributes entry) fattr_device || has_flag (attributes entry) fattr_unused
    then some (record { parser = idle; filename_buff = filename_buff; is_ready = false })
    else if parser.parsing_long_filename && (parser.lfn_checksum == calculate_checksum entry)
    then some (record { parser = idle; filename_buff = filename_buff; is_ready = true })
    else some (record {
      parser = parser;
      filename_buff = short_name entry filename_buff;
      is_ready = true;
    })
