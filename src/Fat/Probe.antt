-- ===== src/Fat/Probe.antt =====
-- The recognition of a volume by probe of core/filesystems/fat.cpp.
use juice_os_kernel.Prelude.{
  ℕ, ◌+◌, ◌-◌, ◌*◌, ◌/◌, ◌%◌, ◌^◌, bit_and, Bool, not, ◌&&◌, ◌||◌, Option, none, some, List, [],
  ◌∷◌, ◌++◌, ltb, ◌==◌, if◌then◌else◌,
}
use juice_os_kernel.BitmapAllocator.Defs.{divide_round_up}
use juice_os_kernel.Text.Defs.{mem_compare, spaced_string_to_cstr}
use juice_os_kernel.Fat.Layout.{
  FatBpb, bpb_of, FatFsinfo, fsinfo_of, FatType, fat12, fat16, fat32, exfat, FileState, VolumeInfo,
  fattr_subdirectory,
}

-- `is_power_of_two` of math.h.
unfoldable pub is_power_of_two : ℕ → Bool
is_power_of_two num = ltb 0 num && (bit_and num (num - 1) == 0)

unfoldable pub is_valid_sector_size : ℕ → Bool
is_valid_sector_size size = (size == 512) || ((size == 1024) || ((size == 2048) || (size == 4096)))

-- The checks before the geometry. Only 16 bits of a FAT32 count of sectors are kept.
abbrev pub exfat_id : List ℕ
exfat_id = b'E' ∷ b'X' ∷ b'F' ∷ b'A' ∷ b'T' ∷ []

abbrev pub ntfs_id : List ℕ
ntfs_id = b'N' ∷ b'T' ∷ b'F' ∷ b'S' ∷ []

unfoldable pub sectors_per_fat_of : FatBpb → ℕ
sectors_per_fat_of bpb =
    if bpb.sectors_per_fat == 0 then bpb.fat32_sectors_per_fat % 2 ^ 16 else bpb.sectors_per_fat

unfoldable pub is_supported : FatBpb → Bool
is_supported bpb =
    (bpb.boot_sig == 0xAA55)
    && (not (mem_compare bpb.oem_id exfat_id 5 || mem_compare bpb.oem_id ntfs_id 4)
        && (is_valid_sector_size bpb.bytes_per_sector
            && (is_power_of_two bpb.sectors_per_cluster
                && not (
                    (bpb.reserved_sectors == 0)
                    || ((bpb.fat_count == 0) || (sectors_per_fat_of bpb == 0))))))

unfoldable pub total_sectors_of : FatBpb → ℕ
total_sectors_of bpb = if bpb.total_sectors == 0 then bpb.large_sector_count else bpb.total_sectors

unfoldable pub root_dir_sectors_of : FatBpb → ℕ
root_dir_sectors_of bpb = divide_round_up (bpb.root_dir_entries * 32) bpb.bytes_per_sector

-- The sectors before the data, and what is left of the total; the difference wraps around.
unfoldable pub system_sectors_of : FatBpb → ℕ
system_sectors_of bpb =
    bpb.reserved_sectors + sectors_per_fat_of bpb * bpb.fat_count + root_dir_sectors_of bpb

unfoldable pub data_sectors_of : FatBpb → ℕ
data_sectors_of bpb = (total_sectors_of bpb + 2 ^ 32 - system_sectors_of bpb) % 2 ^ 32

-- `none` returns null.
unfoldable pub fat_type_of : (total_clusters root_dir_sectors : ℕ) → Option FatType
fat_type_of total_clusters root_dir_sectors =
    if total_clusters == 0
    then some exfat
    else if ltb total_clusters 4085
    then some fat12
    else if ltb total_clusters 65525
    then some fat16
    else if root_dir_sectors == 0
    then some fat32
    else none

abbrev pub signature_of : FatType → FatBpb → ℕ
signature_of fat32 bpb = bpb.fat32_signature
signature_of fat12 bpb = bpb.ebpb_signature
signature_of fat16 bpb = bpb.ebpb_signature
signature_of exfat bpb = bpb.ebpb_signature

-- The label's twelve bytes: the eleven that are copied, and one more.
unfoldable pub label_of : List ℕ → List ℕ
label_of volume_label = (spaced_string_to_cstr 0 11 (volume_label ++ (0 ∷ []))).0

abbrev pub info_of :
    (type : FatType) → (label : List ℕ) → (root : FileState) → (chain_end : ℕ) → FatBpb → VolumeInfo
info_of type label root chain_end bpb = record {
  type = type;
  bpb_volume_label = label_of label;
  bytes_per_sector = bpb.bytes_per_sector;
  sectors_per_cluster = bpb.sectors_per_cluster;
  reserved_sectors = bpb.reserved_sectors;
  sectors_per_fat = sectors_per_fat_of bpb;
  root_dir_entries = bpb.root_dir_entries;
  fat_count = bpb.fat_count;
  total_sectors = total_sectors_of bpb;
  fat_lba = bpb.reserved_sectors;
  root_directory_lba = bpb.reserved_sectors + sectors_per_fat_of bpb * bpb.fat_count;
  data_lba = system_sectors_of bpb;
  root_dir_sectors = root_dir_sectors_of bpb;
  data_sectors = data_sectors_of bpb;
  total_clusters = data_sectors_of bpb / bpb.sectors_per_cluster;
  root_directory_file = root;
  chain_end_cluster = chain_end;
}

abbrev pub root_file : (inode size : ℕ) → FileState
root_file inode size = record {
  inode = inode;
  size = size;
  flags = fattr_subdirectory;
  position = 0;
}

abbrev pub has_fsinfo : FatFsinfo → Bool
has_fsinfo fsinfo =
    (fsinfo.lead_signature == 0x41615252)
    && ((fsinfo.signature == 0x61417272) && (fsinfo.trail_signature == 0xAA550000))

-- The root directory of FAT32 is a chain of clusters; the others have it before the data.
abbrev pub fill_in : FatType → FatFsinfo → FatBpb → Option VolumeInfo
fill_in fat32 fsinfo bpb =
    if has_fsinfo fsinfo
    then some
        (info_of fat32 bpb.fat32_volume_label (root_file bpb.root_dir_cluster 0) 0x0FFFFFF7 bpb)
    else none
fill_in fat12 fsinfo bpb =
    some (info_of fat12 bpb.ebpb_volume_label (root_file 0 (root_dir_sectors_of bpb)) 0xFF7 bpb)
fill_in fat16 fsinfo bpb =
    some (info_of fat16 bpb.ebpb_volume_label (root_file 0 (root_dir_sectors_of bpb)) 0xFFF7 bpb)
fill_in exfat fsinfo bpb = none

abbrev pub has_signature : ℕ → Bool
has_signature signature = (signature == 0x28) || (signature == 0x29)

abbrev pub check_type : Option FatType → (fsinfo : FatFsinfo) → FatBpb → Option VolumeInfo
check_type none fsinfo bpb = none
check_type (some type) fsinfo bpb =
    if has_signature (signature_of type bpb) then fill_in type fsinfo bpb else none

-- `probe`, with the bytes of the device's sectors; `none` is a device without such a file system.
unfoldable pub probe : (sector : ℕ → List ℕ) → Option VolumeInfo
probe sector =
    let bpb = bpb_of (sector 0) in
    let fsinfo = fsinfo_of (sector bpb.fsinfo_sector) in
    if is_supported bpb
    then check_type
        (fat_type_of (data_sectors_of bpb / bpb.sectors_per_cluster) (root_dir_sectors_of bpb))
        fsinfo bpb
    else none
