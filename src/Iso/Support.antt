-- ===== src/Iso/Support.antt =====
-- on_init, the checks of SUSP and of Rock Ridge, get_label and get_size of core/filesystems/iso_9660.cpp. The messages of the log are left out.
use juice_os_kernel.Prelude.{
  ℕ, ◌*◌, ◌%◌, ◌^◌, min, true, false, ◌&&◌, ◌||◌, none, some, List, [], ◌∷◌, ◌==◌, if◌then◌else◌,
  take, drop,
}
use juice_os_kernel.Text.Defs.{mem_compare, text_equal}
use juice_os_kernel.Text.Copies.{c_string}
use juice_os_kernel.Fat.Layout.{u8}
use juice_os_kernel.Fat.Files.{Walk, finished, stopped, out_of_bounds, out_of_fuel}
use juice_os_kernel.Iso.Layout.{
  VolumeInfo, location_lba, data_length, get_sua, get_sua_end, tag_name, tag_version, tag_content,
}
use juice_os_kernel.Iso.Names.{Iso9660, SuspTraverser, traverse_susp_tags}
use juice_os_kernel.Iso.Directories.{resolve_path_part}

-- Only the first tag is looked at.
unfoldable pub visit_sp : SuspTraverser Iso9660
visit_sp tag driver =
    let is_sp =
      mem_compare (tag_name tag) (b'S' ∷ b'P' ∷ []) 2
      && (mem_compare (tag_content tag) (0xBE ∷ 0xEF ∷ []) 2 && (tag_version tag == 1)) in
    some (if is_sp then record driver { supports_susp = true } else driver, false)

-- The three names of Rock Ridge.
abbrev pub ieee_p1282 : List ℕ
ieee_p1282 = b'I' ∷ b'E' ∷ b'E' ∷ b'E' ∷ b'_' ∷ b'P' ∷ b'1' ∷ b'2' ∷ b'8' ∷ b'2' ∷ []

abbrev pub rrip_1991a : List ℕ
rrip_1991a = b'R' ∷ b'R' ∷ b'I' ∷ b'P' ∷ b'_' ∷ b'1' ∷ b'9' ∷ b'9' ∷ b'1' ∷ b'A' ∷ []

abbrev pub ieee_1282 : List ℕ
ieee_1282 = b'I' ∷ b'E' ∷ b'E' ∷ b'E' ∷ b'_' ∷ b'1' ∷ b'2' ∷ b'8' ∷ b'2' ∷ []

-- The identifier of an ER tag, of which 16 characters are kept.
unfoldable pub ext_id : (tag : List ℕ) → List ℕ
ext_id tag = c_string (take (min 16 (u8 (tag_content tag) 0)) (drop 4 (tag_content tag)))

unfoldable pub visit_er : SuspTraverser Iso9660
visit_er tag driver =
    let compared = ext_id tag in
    let is_known =
      text_equal compared ieee_p1282
      || (text_equal compared rrip_1991a || text_equal compared ieee_1282) in
    if mem_compare (tag_name tag) (b'E' ∷ b'R' ∷ []) 2
    then some (if is_known then record driver { supports_rock_ridge = true } else driver, false)
    else if mem_compare (tag_name tag) (b'R' ∷ b'R' ∷ []) 2
    then some (record driver { supports_rock_ridge = true }, false)
    else some (driver, true)

-- The tags of the entry of the root directory for itself. Without such an entry, null is read.
unfoldable pub root_tags : (fuel : ℕ) → SuspTraverser Iso9660 → Iso9660 → Walk Iso9660
root_tags fuel traverser driver =
    let root_dir = driver.volume_info.root_dir in
    elim (resolve_path_part fuel driver (location_lba root_dir) (data_length root_dir)
      (b'.' ∷ [])) [
        | finished found ↦ out_of_bounds
        | stopped found ↦ elim found [
          | none ↦ out_of_bounds
          | some entry ↦
              traverse_susp_tags fuel driver entry.0 entry.1 (get_sua entry.1) (get_sua_end entry.1)
                traverser driver
        ]
        | out_of_bounds ↦ out_of_bounds
        | out_of_fuel ↦ out_of_fuel
      ]

unfoldable pub check_susp_support : (fuel : ℕ) → Iso9660 → Walk Iso9660
check_susp_support fuel driver = root_tags fuel visit_sp driver

unfoldable pub check_rockridge_support : (fuel : ℕ) → Iso9660 → Walk Iso9660
check_rockridge_support fuel driver =
    if driver.supports_susp then root_tags fuel visit_er driver else finished driver

unfoldable pub on_init : (fuel : ℕ) → Iso9660 → Walk Iso9660
on_init fuel driver = elim (check_susp_support fuel driver) [
  | finished driver' ↦ check_rockridge_support fuel driver'
  | stopped driver' ↦ check_rockridge_support fuel driver'
  | out_of_bounds ↦ out_of_bounds
  | out_of_fuel ↦ out_of_fuel
]

unfoldable pub get_label : VolumeInfo → List ℕ
get_label info = c_string info.volume_id

unfoldable pub get_size : VolumeInfo → ℕ
get_size info = info.space_size * info.logical_block_size % 2 ^ 32
