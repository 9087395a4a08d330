-- ===== src/Iso/Directories.antt =====
-- Directories and paths: resolve_path_part, resolve_path and read_dir of core/filesystems/iso_9660.cpp. The printing of messages is left out.
use juice_os_kernel.Prelude.{
  ℕ, zero, suc, ◌+◌, ◌*◌, ◌/◌, ◌%◌, ◌^◌, Bool, true, false, not, ◌&&◌, ◌||◌, Option, none, some,
  List, [], ◌∷◌, ltb, leb, ◌==◌, if◌then◌else◌, length, get_or, drop,
}
use juice_os_kernel.Text.Defs.{text_equal}
use juice_os_kernel.Text.Copies.{c_string}
use juice_os_kernel.Fat.Layout.{FileState, has_flag}
use juice_os_kernel.Fat.Entries.{max_filename_size}
use juice_os_kernel.Fat.Clusters.{directory, file, DirEntry}
use juice_os_kernel.Fat.Files.{
  Walk, finished, stopped, out_of_bounds, out_of_fuel, skip_slashes, path_part, behind_part,
}
use juice_os_kernel.Iso.FileData.{Device, common_lba_size, read_cd_sector}
use juice_os_kernel.Iso.Layout.{
  record_length, location_lba, data_length, record_flags, filename_start,
}
use juice_os_kernel.Iso.Names.{Iso9660, extract_filename}

-- The flag of a directory.
abbrev pub directory_flag : ℕ
directory_flag = 0x02

-- What follows the name of an entry.
abbrev pub with_name : {S : Type 0} → Walk (List ℕ) → (next : List ℕ → Walk S) → Walk S
with_name (finished name) next = next name
with_name (stopped name) next = next name
with_name out_of_bounds next = out_of_bounds
with_name out_of_fuel next = out_of_fuel

-- What follows the entries of a sector: the next sector, unless the loop has returned.
abbrev pub after_sector : {S : Type 0} → Walk S → (next : S → Walk S) → Walk S
after_sector (finished s) next = next s
after_sector (stopped s) next = stopped s
after_sector out_of_bounds next = out_of_bounds
after_sector out_of_fuel next = out_of_fuel

-- The loop over the entries of a sector, which lies in `buffer`, from the place i on. What is done
-- for an entry either returns or goes on.
unfoldable pub scan_sector :
    {S : Type 0}
    → (rounds : ℕ) → (visit : (buffer : List ℕ) → (i : ℕ) → S → Walk S) → (buffer : List ℕ)
    → (i : ℕ) → S
    → Walk S
scan_sector zero visit buffer i s =
    if ltb i common_lba_size && not (record_length (drop i buffer) == 0)
    then out_of_fuel
    else finished s
scan_sector (suc rounds) visit buffer i s =
    let next =
      after_sector (visit buffer i s)
        (λ s'. scan_sector rounds visit buffer (i + record_length (drop i buffer)) s') in
    if ltb i common_lba_size && not (record_length (drop i buffer) == 0) then next else finished s

-- The loop over the sectors of a directory. A round of the inner loop moves on by one byte at
-- least, so that 2048 rounds are enough.
unfoldable pub scan_sectors :
    {S : Type 0}
    → (rounds : ℕ) → Device
    → (visit : (buffer : List ℕ) → (i : ℕ) → S → Walk S)
    → (parent_location_lba parent_data_length curr_sector : ℕ) → S
    → Walk S
scan_sectors zero device visit parent_location_lba parent_data_length curr_sector s =
    if ltb (curr_sector * common_lba_size % 2 ^ 32) parent_data_length
    then out_of_fuel
    else finished s
scan_sectors (suc rounds) device visit parent_location_lba parent_data_length curr_sector s =
    let next =
      after_sector
        (scan_sector common_lba_size visit
          (read_cd_sector device (parent_location_lba + curr_sector)) 0 s)
        (λ s'.
          scan_sectors rounds device visit parent_location_lba parent_data_length (curr_sector + 1)
            s') in
    if ltb (curr_sector * common_lba_size % 2 ^ 32) parent_data_length then next else finished s

-- An entry that was found: its address, and the bytes from it on.
abbrev pub Found : Type 0
Found = ℕ × List ℕ

unfoldable pub visit_part :
    (fuel : ℕ)
    → Iso9660
    → (part : List ℕ) → (buffer : List ℕ) → (i : ℕ) → Option Found
    → Walk (Option Found)
visit_part fuel driver part buffer i s =
    with_name (extract_filename fuel driver buffer i max_filename_size) (λ name.
      if text_equal part (c_string name)
      then stopped (some (driver.temp_read_buffer + i, drop i buffer))
      else finished s)

-- The fuel is for the tags of a name. A round of the outer loop reads 2048 bytes.
unfoldable pub resolve_path_part :
    (fuel : ℕ)
    → Iso9660
    → (parent_location_lba parent_data_length : ℕ) → (part : List ℕ) → Walk (Option Found)
resolve_path_part fuel driver parent_location_lba parent_data_length part =
    scan_sectors (parent_data_length / common_lba_size + 1) driver.device
      (visit_part fuel driver part) parent_location_lba parent_data_length 0 none

-- The loop of resolve_path. A part that is too long for its buffer is `out_of_bounds`. Each round
-- takes one character of the path at least; `none` within a finished walk is a path that is not there.
unfoldable pub resolve_parts :
    (rounds fuel : ℕ) → Iso9660 → (path : List ℕ) → (last : Found) → Walk (Option Found)
resolve_parts zero fuel driver [] last = finished (some last)
resolve_parts zero fuel driver (ch ∷ path) last = out_of_fuel
resolve_parts (suc rounds) fuel driver [] last = finished (some last)
resolve_parts (suc rounds) fuel driver (ch ∷ path) last =
    let part = path_part (skip_slashes (ch ∷ path)) in
    let later = behind_part (skip_slashes (ch ∷ path)) in
    let nothing = resolve_parts rounds fuel driver later last in
    let resolved : Walk (Option Found) =
      elim (resolve_path_part fuel driver (location_lba last.1) (data_length last.1) part) [
        | finished s ↦ finished none
        | stopped s ↦ elim s [
          | none ↦ finished none
          | some entry ↦ resolve_parts rounds fuel driver later entry
        ]
        | out_of_bounds ↦ out_of_bounds
        | out_of_fuel ↦ out_of_fuel
      ] in
    if not (has_flag (record_flags last.1) directory_flag)
    then finished none
    else if leb max_filename_size (length part)
    then out_of_bounds
    else if length part == 0
    then nothing
    else resolved

unfoldable pub state_of : (entry : List ℕ) → FileState
state_of entry = record {
  inode = location_lba entry;
  size = data_length entry;
  flags = record_flags entry;
  position = 0;
}

abbrev pub state_of_entry : Option Found → Option FileState
state_of_entry none = none
state_of_entry (some (address, entry)) = some (state_of entry)

unfoldable pub resolve_path : (fuel : ℕ) → Iso9660 → (path : List ℕ) → Walk (Option FileState)
resolve_path fuel driver path =
    elim (resolve_parts (length path) fuel driver path (0, driver.volume_info.root_dir)) [
      | finished s ↦ finished (state_of_entry s)
      | stopped s ↦ finished (state_of_entry s)
      | out_of_bounds ↦ out_of_bounds
      | out_of_fuel ↦ out_of_fuel
    ]

-- The entries of the directory itself and of its parent are left out.
unfoldable pub is_dot : (entry : List ℕ) → Bool
is_dot entry = (get_or (filename_start entry) 0 0 == 0) || (get_or (filename_start entry) 0 0 == 1)

unfoldable pub dir_entry : (entry name : List ℕ) → DirEntry
dir_entry entry name = record {
  type = if has_flag (record_flags entry) directory_flag then directory else file;
  name = c_string name;
  file_state = state_of entry;
}

abbrev pub called : {S : Type 0} → S × Bool → Walk S
called (s, true) = finished s
called (s, false) = stopped s

unfoldable pub visit_entry :
    {S : Type 0}
    → (fuel : ℕ) → Iso9660
    → (callback : DirEntry → S → S × Bool) → (buffer : List ℕ) → (i : ℕ) → S
    → Walk S
visit_entry {S} fuel driver callback buffer i s =
    let handled : Walk S =
      with_name (extract_filename fuel driver buffer i max_filename_size)
        (λ name. called (callback (dir_entry (drop i buffer) name) s)) in
    if is_dot (drop i buffer) then finished s else handled

-- read_dir, with the callback as what is done for an entry.
unfoldable pub read_dir :
    {S : Type 0}
    → (fuel : ℕ) → Iso9660
    → (path : List ℕ) → (callback : DirEntry → S → S × Bool) → S
    → Walk S
read_dir {S} fuel driver path callback s = elim (resolve_path fuel driver path) [
  | finished o ↦ elim o [
    | none ↦ finished s
    | some state ↦
        if has_flag state.flags directory_flag
        then scan_sectors (state.size / common_lba_size + 1) driver.device
            (visit_entry fuel driver callback) state.inode state.size 0 s
        else finished s
  ]
  | stopped o ↦ finished s
  | out_of_bounds ↦ out_of_bounds
  | out_of_fuel ↦ out_of_fuel
]
