-- ===== src/Fat/ShortNames.antt =====
-- Short file names in the directories of core/filesystems/fat.cpp.
use juice_os_kernel.Prelude.{
  ℕ, ◌≤◌, ◌<◌, ◌≡◌, refl, ◌≢◌, inl, inr, true, false, ◌||◌, if◌then◌else◌, Bool-cases, some, List,
  ◌∷◌, ◌++◌, arith, ◌==◌, length, take,
}
use juice_os_kernel.Text.Copies.{strip, c_string}
use juice_os_kernel.Text.Strlcpy.{AllNonzero}
use juice_os_kernel.Fat.Layout.{
  u8, attributes, has_flag, fattr_lfn, fattr_device, fattr_unused, fattr_subdirectory,
  fattr_volumelabel,
}
use juice_os_kernel.Fat.NameCopies.{
  base_name, extension, file_short_name-c_string, other_short_name-c_string,
}
use juice_os_kernel.Fat.Entries.{EntryParser, Handled, handle_next, short_name}

no_device :
    (flags : ℕ)
    → flags < 0x40
    → (has_flag flags fattr_device ≡ false) × (has_flag flags fattr_unused ≡ false)
unfolding has_flag
no_device flags s = ground arith

-- The name that the eleven bytes stand for: of a file the name, a dot and the extension, each
-- without the spaces at its end, and of a directory or a label all eleven without them.
abbrev pub meant_name : List ℕ → List ℕ
meant_name entry =
    if has_flag (attributes entry) fattr_subdirectory
      || has_flag (attributes entry) fattr_volumelabel
    then strip (take 11 entry)
    else base_name entry ++ (b'.' ∷ extension entry)

short_name-c_string :
    (entry filename_buff : List ℕ)
    → 12 ≤ length entry
    → 14 ≤ length filename_buff
    → AllNonzero (take 11 entry)
    → c_string (short_name entry filename_buff) ≡ meant_name entry
unfolding short_name
short_name-c_string entry filename_buff l h a =
    elim (Bool-cases (
      has_flag (attributes entry) fattr_subdirectory
      || has_flag (attributes entry) fattr_volumelabel)) [
        | inl e ↦ rw e (other_short_name-c_string entry filename_buff l a h)
        | inr e ↦ rw e (file_short_name-c_string entry filename_buff l a h)
      ]

-- An entry behind no parts of a long name, that is neither erased nor such a part nor a device, is
-- named by its short name: a file by its name, a dot and its extension, each without the spaces at
-- its end; a directory or a label by all eleven bytes without the spaces at their end.
pub handle_next-short_name :
    (entry filename_buff : List ℕ) (parser : EntryParser)
    → 12 ≤ length entry
    → 14 ≤ length filename_buff
    → AllNonzero (take 11 entry)
    → u8 entry 0 ≢ 0xE5
    → attributes entry < 0x40
    → attributes entry ≢ fattr_lfn
    → parser.parsing_long_filename ≡ false
    → (s : Handled) × (handle_next entry filename_buff parser ≡ some s)
      × ((s.is_ready ≡ true) × (c_string s.filename_buff ≡ meant_name entry))
unfolding handle_next
handle_next-short_name entry filename_buff parser l h a n small f p =
    let present : (u8 entry 0 == 0xE5) ≡ false = ground arith in
    let no_part : (attributes entry == fattr_lfn) ≡ false = ground arith in
    let (u, w) = no_device (attributes entry) small in
    (
      record { parser = parser; filename_buff = short_name entry filename_buff; is_ready = true },
      rw (present, no_part, u, w, p) refl,
      (refl, short_name-c_string entry filename_buff l h a),
    )
