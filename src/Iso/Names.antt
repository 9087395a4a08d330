-- ===== src/Iso/Names.antt =====
-- The names of entries: convert_iso9660_filename, traverse_susp_tags, retrieve_rockridge_filename and extract_filename of core/filesystems/iso_9660.cpp.
use juice_os_kernel.Prelude.{
  ℕ, zero, suc, ◌+◌, ◌-◌, ◌*◌, ◌%◌, ◌^◌, min, bit_and, Bool, true, false, not, Option, none, some,
  List, [], ◌∷◌, ◌++◌, ltb, ◌==◌, if◌then◌else◌, length, get_or, take, drop,
}
use juice_os_kernel.Text.Defs.{mem_compare, trimmed_length}
use juice_os_kernel.Fat.Files.{Walk, finished, stopped, out_of_bounds, out_of_fuel}
use juice_os_kernel.Fat.Layout.{u8, u32}
use juice_os_kernel.Fat.Entries.{max_filename_size}
use juice_os_kernel.Iso.FileData.{Device}
use juice_os_kernel.Iso.Layout.{
  VolumeInfo, filename_size, filename_start, get_sua, get_sua_end, tag_name, tag_length,
  tag_content,
}

-- The characters up to the first semicolon.
unfoldable pub before_version : List ℕ → List ℕ
before_version [] = []
before_version (ch ∷ source) =
    let rest = before_version source in if ch == b';' then [] else ch ∷ rest

-- The text that is written, without its terminator.
unfoldable pub convert_iso9660_filename : (source : List ℕ) → (source_length : ℕ) → List ℕ
convert_iso9660_filename source source_length =
    if get_or source 0 0 == 0
    then b'.' ∷ []
    else if get_or source 0 0 == 1
    then b'.' ∷ b'.' ∷ []
    else before_version (take (trimmed_length 0 source_length source) source)

-- A driver: its device, what probe has kept, whether the volume has SUSP and Rock Ridge, and the addresses of its two
-- buffers, `temp_read_buffer` and `temp_susp_traverser_read_buffer`.
pub record Iso9660 : Type 0 where
  pub device : Device
  pub volume_info : VolumeInfo
  pub supports_susp : Bool
  pub supports_rock_ridge : Bool
  pub temp_read_buffer : ℕ
  pub temp_susp_traverser_read_buffer : ℕ

abbrev pub ce_name : List ℕ
ce_name = b'C' ∷ b'E' ∷ []

abbrev pub st_name : List ℕ
st_name = b'S' ∷ b'T' ∷ []

abbrev pub nm_name : List ℕ
nm_name = b'N' ∷ b'M' ∷ []

-- A visit of a tag: the state, and whether to go on; `none` is a write that leaves its buffer.
abbrev pub SuspTraverser : (S : Type 0) → Type 0
SuspTraverser S = (tag : List ℕ) → S → Option (S × Bool)

-- What follows a visit.
abbrev pub after_visit : {S : Type 0} → Option (S × Bool) → (next : S → Walk S) → Walk S
after_visit none next = out_of_bounds
after_visit (some (s, true)) next = next s
after_visit (some (s, false)) next = finished s

-- The tags of `buffer`, which lies at `address`, from the place `p` to the place `sua_end`. The
-- fuel is for the tags, those of continued areas included. A tag whose length is not within the
-- buffer is a read behind it. Of the 64-bit numbers of a CE tag the low halves are left.
unfoldable pub traverse_susp_tags :
    {S : Type 0}
    → (fuel : ℕ) → Iso9660
    → (address : ℕ) → (buffer : List ℕ) → (p sua_end : ℕ) → SuspTraverser S
    → S
    → Walk S
traverse_susp_tags zero driver address buffer p sua_end traverser s =
    if ltb (p + (address + p) % 2) sua_end then out_of_fuel else finished s
traverse_susp_tags (suc fuel) driver address buffer p sua_end traverser s =
    let tag = drop p buffer in
    let continued =
      traverse_susp_tags fuel driver driver.temp_susp_traverser_read_buffer
        (driver.device (u32 tag 4 * 4 % 2 ^ 32) 4) (u32 tag 12) (u32 tag 12 + u32 tag 20) traverser
        s in
    let visited = after_visit (traverser tag s) (λ s'.
      traverse_susp_tags fuel driver address buffer (p + tag_length tag) sua_end traverser s') in
    if not (ltb (p + (address + p) % 2) sua_end)
    then finished s
    else if ltb (length buffer) (p + 3)
    then out_of_bounds
    else if mem_compare (tag_name tag) ce_name 2
    then continued
    else if mem_compare (tag_name tag) st_name 2
    then finished s
    else visited

-- `cback_data`, with the bytes that are written.
pub record CbackData : Type 0 where
  pub written : List ℕ
  pub max_limit : ℕ
  pub is_failed : Bool

abbrev pub susp_nm_flags_continue : ℕ
susp_nm_flags_continue = 1

-- The tags of names. The length of the portion, and the sum that is compared, wrap around; a
-- portion that is longer than the room left, or than what is left of the sector, is a copy that
-- leaves its buffer.
unfoldable pub name_traverser : SuspTraverser CbackData
name_traverser tag cback =
    let str_portion_len = (tag_length tag + 2 ^ 32 - 5) % 2 ^ 32 in
    let content = tag_content tag in
    if not (mem_compare (tag_name tag) nm_name 2)
    then some (cback, true)
    else if ltb cback.max_limit ((length cback.written + str_portion_len) % 2 ^ 32)
    then some (record cback { is_failed = true }, false)
    else if ltb cback.max_limit (length cback.written + str_portion_len)
    then none
    else if ltb (length (drop 1 content)) str_portion_len
    then none
    else some (
      record cback { written = cback.written ++ take str_portion_len (drop 1 content) },
      not (bit_and (u8 content 0) susp_nm_flags_continue == 0),
    )

-- The name of the entry at the place i of the read buffer. What is written is a name even if it is
-- too long, since the callers do not look at the failure.
unfoldable pub retrieve_rockridge_filename :
    (fuel : ℕ) → Iso9660 → (buffer : List ℕ) → (i : ℕ) → (out_buff_max_length : ℕ) → Walk CbackData
retrieve_rockridge_filename fuel driver buffer i out_buff_max_length =
    let entry = drop i buffer in
    let start : CbackData = record {
      written = [];
      max_limit = min out_buff_max_length max_filename_size - 1;
      is_failed = false;
    } in
    if ltb start.max_limit 1
    then finished start
    else traverse_susp_tags fuel driver driver.temp_read_buffer buffer (i + get_sua entry)
        (i + get_sua_end entry) name_traverser start

abbrev pub name_of : Walk CbackData → Walk (List ℕ)
name_of (finished cback) = finished cback.written
name_of (stopped cback) = finished cback.written
name_of out_of_bounds = out_of_bounds
name_of out_of_fuel = out_of_fuel

unfoldable pub extract_filename :
    (fuel : ℕ)
    → Iso9660
    → (buffer : List ℕ) → (i : ℕ) → (out_c_string_max_length : ℕ) → Walk (List ℕ)
extract_filename fuel driver buffer i out_c_string_max_length =
    let entry = drop i buffer in
    if driver.supports_rock_ridge
    then name_of (retrieve_rockridge_filename fuel driver buffer i out_c_string_max_length)
    else finished (convert_iso9660_filename (filename_start entry) (filename_size entry))
