-- ===== src/Fat/Volume.antt =====
-- The volume of core/filesystems/fat.cpp: its name, its sizes and on_init. The device is a parameter with the bytes of the sectors it reads.
use juice_os_kernel.Prelude.{
  ℕ, ◌*◌, ◌/◌, ◌%◌, ◌^◌, Bool, true, false, Option, none, some, List, [], ◌∷◌, ◌++◌, if◌then◌else◌,
}
use juice_os_kernel.Text.Defs.{strlcpy, strcpy}
use juice_os_kernel.BitmapAllocator.Defs.{divide_round_up}
use juice_os_kernel.Fat.Layout.{
  FatType, fat12, fat16, fat32, exfat, VolumeInfo, has_flag, fattr_volumelabel,
}
use juice_os_kernel.Fat.Clusters.{Fat, DirEntry}
use juice_os_kernel.Fat.Files.{Walk, finished, stopped, out_of_bounds, out_of_fuel, read_dir}

-- `none` raises an error.
unfoldable pub type_name : FatType → Option (List ℕ)
type_name fat12 = some (b'F' ∷ b'A' ∷ b'T' ∷ b'1' ∷ b'2' ∷ [])
type_name fat16 = some (b'F' ∷ b'A' ∷ b'T' ∷ b'1' ∷ b'6' ∷ [])
type_name fat32 = some (b'F' ∷ b'A' ∷ b'T' ∷ b'3' ∷ b'2' ∷ [])
type_name exfat = none

unfoldable pub volume_size : Fat → ℕ
volume_size driver = driver.volume_info.total_sectors * driver.volume_info.bytes_per_sector % 2 ^ 32

unfoldable pub usable_size : Fat → ℕ
usable_size driver = driver.volume_info.data_sectors * driver.volume_info.bytes_per_sector % 2 ^ 32

-- The callback of find_volumelabel: the label's buffer, and whether a label was found.
unfoldable pub check_label : (max_label_size : ℕ) → DirEntry → List ℕ × Bool → List ℕ × Bool × Bool
check_label max_label_size entry (out_label, is_found) =
    if has_flag entry.file_state.flags fattr_volumelabel
    then ((strlcpy (entry.name ++ (0 ∷ [])) 0 max_label_size out_label).0, true, false)
    else (out_label, is_found, true)

unfoldable pub find_volumelabel :
    (fuel : ℕ)
    → Fat
    → (filename_buff out_label : List ℕ) → (max_label_size : ℕ) → Walk (List ℕ × Bool)
find_volumelabel fuel driver filename_buff out_label max_label_size =
    read_dir fuel driver (b'/' ∷ []) filename_buff
      (λ entry s.
        let (out, is_found, goes_on) = check_label max_label_size entry s in
        ((out, is_found), goes_on))
      (out_label, false)

-- The table, as on_init reads it: its sectors are counted in the device's 512 bytes, and its start
-- in the volume's sectors.
unfoldable pub table_sectors : VolumeInfo → ℕ
table_sectors info = info.sectors_per_fat * info.bytes_per_sector / 512

unfoldable pub table_pages : VolumeInfo → ℕ
table_pages info = divide_round_up (info.sectors_per_fat * info.bytes_per_sector) 4096

abbrev pub load_table : VolumeInfo → (device_read : ℕ → ℕ → List ℕ) → Fat
load_table info device_read = record {
  volume_info = info;
  loaded_fat = device_read info.fat_lba (table_sectors info);
  device_read = device_read;
}

-- The name of the volume: the label of the root directory, or else that of the boot sector.
abbrev pub named : VolumeInfo → List ℕ × Bool → List ℕ
named info (volume_name, true) = volume_name
named info (volume_name, false) = strcpy info.bpb_volume_label 0 volume_name

unfoldable pub on_init :
    (fuel : ℕ)
    → VolumeInfo
    → (device_read : ℕ → ℕ → List ℕ) → (filename_buff volume_name : List ℕ) → Walk (Fat × List ℕ)
on_init fuel info device_read filename_buff volume_name =
    let driver = load_table info device_read in
    elim (find_volumelabel fuel driver filename_buff volume_name 32) [
      | finished s ↦ finished (driver, named info s)
      | stopped s ↦ finished (driver, named info s)
      | out_of_bounds ↦ out_of_bounds
      | out_of_fuel ↦ out_of_fuel
    ]
