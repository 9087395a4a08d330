-- ===== src/Fat/Files.antt =====
-- Directories and paths: read_dir and resolve_path of core/filesystems/fat.cpp. The buffer of a name is the caller's; the printing of messages is left out.
use juice_os_kernel.Prelude.{
  ℕ, zero, suc, ◌/◌, Bool, true, false, not, Option, none, some, List, [], ◌∷◌, leb, ◌==◌,
  if◌then◌else◌, length,
}
use juice_os_kernel.Text.Defs.{text_equal}
use juice_os_kernel.Fat.Layout.{FileState, has_flag, fattr_subdirectory}
use juice_os_kernel.Fat.Entries.{EntryParser, max_filename_size}
use juice_os_kernel.Fat.Clusters.{
  Fat, ClusterReader, reader_at, read_next, as_dir, DirEntry, Scanned, scanned, returned, outside,
  scan_entries,
}

-- What a walk along a chain comes to: the end of the chain, an early return, an access outside of
-- the table or of a name's buffer, or more clusters than the walk was given.
pub data Walk (S : Type 0) : Type 0 where
  finished : S → Walk S
  stopped : S → Walk S
  out_of_bounds : Walk S
  out_of_fuel : Walk S

abbrev pub dir_entries : ClusterReader → List (List ℕ)
dir_entries reader = as_dir (reader.read_bytes / 32) reader.buffer

abbrev pub after_read :
    {S : Type 0} → Option ClusterReader → (rest : ClusterReader → Walk S) → Walk S
after_read none rest = out_of_bounds
after_read (some reader) rest = rest reader

abbrev pub after_scan :
    {S : Type 0} → Scanned S → (rest : S → List ℕ → EntryParser → Walk S) → Walk S
after_scan outside rest = out_of_bounds
after_scan (returned s) rest = stopped s
after_scan (scanned s filename_buff parser) rest = rest s filename_buff parser

-- The loop over the clusters of a directory that read_dir and resolve_path_part share.
unfoldable pub walk :
    {S : Type 0}
    → (fuel : ℕ) → Fat
    → (visit : DirEntry → S → S × Bool) → ClusterReader
    → (filename_buff : List ℕ) → EntryParser
    → S
    → Walk S
walk zero driver visit reader filename_buff parser s = out_of_fuel
walk (suc fuel) driver visit reader filename_buff parser s =
    after_read (read_next driver reader) (λ r.
      after_scan (scan_entries visit (dir_entries r) filename_buff parser s)
        (λ s' filename_buff' parser'. elim r.has_more_data [
          | true ↦ walk fuel driver visit r filename_buff' parser' s'
          | false ↦ finished s'
        ]))

abbrev pub new_parser : EntryParser
new_parser = record { parsing_long_filename = false; lfn_checksum = 0 }

abbrev pub walk_from :
    {S : Type 0}
    → (fuel : ℕ) → Fat
    → (visit : DirEntry → S → S × Bool) → (cluster : ℕ) → (filename_buff : List ℕ) → S
    → Walk S
walk_from fuel driver visit cluster filename_buff s =
    walk fuel driver visit (reader_at cluster) filename_buff new_parser s

-- A named entry is compared with the part of the path.
unfoldable pub visit_part : (part : List ℕ) → DirEntry → Option FileState → Option FileState × Bool
visit_part part entry s =
    if text_equal part entry.name then (some entry.file_state, false) else (s, true)

unfoldable pub resolve_path_part :
    (fuel : ℕ) → Fat → (cluster : ℕ) → (part filename_buff : List ℕ) → Walk (Option FileState)
resolve_path_part fuel driver cluster part filename_buff =
    walk_from fuel driver (visit_part part) cluster filename_buff none

-- The part of a path up to the next slash, and what follows it.
unfoldable pub skip_slashes : List ℕ → List ℕ
skip_slashes [] = []
skip_slashes (ch ∷ path) = let rest = skip_slashes path in if ch == b'/' then rest else ch ∷ path

unfoldable pub path_part : List ℕ → List ℕ
path_part [] = []
path_part (ch ∷ path) = let rest = path_part path in if ch == b'/' then [] else ch ∷ rest

unfoldable pub behind_part : List ℕ → List ℕ
behind_part [] = []
behind_part (ch ∷ path) = let rest = behind_part path in if ch == b'/' then ch ∷ path else rest

-- The loop of resolve_path. A part that is too long for its buffer is `out_of_bounds`. Each round takes one character of the path at least; `none` within a
-- finished walk is a path that is not there.
unfoldable pub resolve_parts :
    (rounds fuel : ℕ)
    → Fat
    → (path filename_buff : List ℕ) → (last : FileState) → Walk (Option FileState)
resolve_parts zero fuel driver [] filename_buff last = finished (some last)
resolve_parts zero fuel driver (ch ∷ path) filename_buff last = out_of_fuel
resolve_parts (suc rounds) fuel driver [] filename_buff last = finished (some last)
resolve_parts (suc rounds) fuel driver (ch ∷ path) filename_buff last =
    let part = path_part (skip_slashes (ch ∷ path)) in
    let later = behind_part (skip_slashes (ch ∷ path)) in
    let nothing = resolve_parts rounds fuel driver later filename_buff last in
    let resolved : Walk (Option FileState) =
      elim (resolve_path_part fuel driver last.inode part filename_buff) [
        | finished s ↦ finished none
        | stopped s ↦ elim s [
          | none ↦ finished none
          | some state ↦ resolve_parts rounds fuel driver later filename_buff state
        ]
        | out_of_bounds ↦ out_of_bounds
        | out_of_fuel ↦ out_of_fuel
      ] in
    if not (has_flag last.flags fattr_subdirectory)
    then finished none
    else if length part == 0
    then nothing
    else if leb max_filename_size (length part)
    then out_of_bounds
    else resolved

unfoldable pub resolve_path :
    (fuel : ℕ) → Fat → (path filename_buff : List ℕ) → Walk (Option FileState)
resolve_path fuel driver path filename_buff =
    resolve_parts (length path) fuel driver path filename_buff
      driver.volume_info.root_directory_file

-- read_dir, with the callback as what is done for an entry.
unfoldable pub read_dir :
    {S : Type 0}
    → (fuel : ℕ) → Fat
    → (path filename_buff : List ℕ) → (callback : DirEntry → S → S × Bool) → S
    → Walk S
read_dir {S} fuel driver path filename_buff callback s =
    elim (resolve_path fuel driver path filename_buff) [
      | finished o ↦ elim o [
        | none ↦ finished s
        | some state ↦
            if has_flag state.flags fattr_subdirectory
            then walk_from fuel driver callback state.inode filename_buff s
            else finished s
      ]
      | stopped o ↦ finished s
      | out_of_bounds ↦ out_of_bounds
      | out_of_fuel ↦ out_of_fuel
    ]
