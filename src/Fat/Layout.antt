-- ===== src/Fat/Layout.antt =====
-- The structures of core/filesystems/fat.h.
use juice_os_kernel.Prelude.{ℕ, ◌+◌, ◌*◌, ◌/◌, ◌%◌, Bool, List, [], ◌∷◌, ◌==◌, get_or, take, drop}

-- The packed structures are overlaid on bytes; numbers have their lowest byte first.
unfoldable pub u8 : List ℕ → ℕ → ℕ
u8 bytes i = get_or bytes i 0

unfoldable pub u16 : List ℕ → ℕ → ℕ
u16 bytes i = get_or bytes i 0 + 256 * get_or bytes (i + 1) 0

unfoldable pub u32 : List ℕ → ℕ → ℕ
u32 bytes i =
    get_or bytes i 0
    + 256 * get_or bytes (i + 1) 0
    + 0x10000 * get_or bytes (i + 2) 0
    + 0x1000000 * get_or bytes (i + 3) 0

-- The fields of `fat_bpb` that the driver reads, those of the two unions included.
pub record FatBpb : Type 0 where
  pub oem_id : List ℕ
  pub bytes_per_sector : ℕ
  pub sectors_per_cluster : ℕ
  pub reserved_sectors : ℕ
  pub fat_count : ℕ
  pub root_dir_entries : ℕ
  pub total_sectors : ℕ
  pub sectors_per_fat : ℕ
  pub large_sector_count : ℕ
  pub ebpb_signature : ℕ
  pub ebpb_volume_label : List ℕ
  pub fat32_sectors_per_fat : ℕ
  pub root_dir_cluster : ℕ
  pub fsinfo_sector : ℕ
  pub fat32_signature : ℕ
  pub fat32_volume_label : List ℕ
  pub boot_sig : ℕ

unfoldable pub bpb_of : List ℕ → FatBpb
bpb_of bytes = record {
  oem_id = take 8 (drop 3 bytes);
  bytes_per_sector = u16 bytes 11;
  sectors_per_cluster = u8 bytes 13;
  reserved_sectors = u16 bytes 14;
  fat_count = u8 bytes 16;
  root_dir_entries = u16 bytes 17;
  total_sectors = u16 bytes 19;
  sectors_per_fat = u16 bytes 22;
  large_sector_count = u32 bytes 32;
  ebpb_signature = u8 bytes 38;
  ebpb_volume_label = take 11 (drop 43 bytes);
  fat32_sectors_per_fat = u32 bytes 36;
  root_dir_cluster = u32 bytes 44;
  fsinfo_sector = u16 bytes 48;
  fat32_signature = u8 bytes 66;
  fat32_volume_label = take 11 (drop 71 bytes);
  boot_sig = u16 bytes 510;
}

pub record FatFsinfo : Type 0 where
  pub lead_signature : ℕ
  pub signature : ℕ
  pub trail_signature : ℕ

unfoldable pub fsinfo_of : List ℕ → FatFsinfo
fsinfo_of bytes = record {
  lead_signature = u32 bytes 0;
  signature = u32 bytes 484;
  trail_signature = u32 bytes 508;
}

-- A directory entry is its 32 bytes, read as a `dir_entry` or as a `dir_lfn_entry`.
unfoldable pub attributes : List ℕ → ℕ
attributes entry = u8 entry 11

unfoldable pub first_cluster : List ℕ → ℕ
first_cluster entry = u16 entry 26

unfoldable pub file_size : List ℕ → ℕ
file_size entry = u32 entry 28

unfoldable pub seq_num : List ℕ → ℕ
seq_num entry = u8 entry 0

unfoldable pub stored_checksum : List ℕ → ℕ
stored_checksum entry = u8 entry 13

-- `name_chars`, `name_chars2` and `name_chars3`, as the three copies of `handle_next` join them.
unfoldable pub name_chars : List ℕ → List ℕ
name_chars entry =
    u16 entry 1
    ∷ u16 entry 3
    ∷ u16 entry 5
    ∷ u16 entry 7
    ∷ u16 entry 9
    ∷ u16 entry 14
    ∷ u16 entry 16
    ∷ u16 entry 18
    ∷ u16 entry 20
    ∷ u16 entry 22
    ∷ u16 entry 24
    ∷ u16 entry 28
    ∷ u16 entry 30
    ∷ []

pub data FatType : Type 0 where
  fat12 fat16 fat32 exfat : FatType

-- `kstorage::FileState`.
pub record FileState : Type 0 where
  pub inode : ℕ
  pub size : ℕ
  pub flags : ℕ
  pub position : ℕ

pub record VolumeInfo : Type 0 where
  pub type : FatType
  pub bpb_volume_label : List ℕ
  pub bytes_per_sector : ℕ
  pub sectors_per_cluster : ℕ
  pub reserved_sectors : ℕ
  pub sectors_per_fat : ℕ
  pub root_dir_entries : ℕ
  pub fat_count : ℕ
  pub total_sectors : ℕ
  pub fat_lba : ℕ
  pub root_directory_lba : ℕ
  pub data_lba : ℕ
  pub root_dir_sectors : ℕ
  pub data_sectors : ℕ
  pub total_clusters : ℕ
  pub root_directory_file : FileState
  pub chain_end_cluster : ℕ

abbrev pub fattr_volumelabel : ℕ
fattr_volumelabel = 0x08

abbrev pub fattr_subdirectory : ℕ
fattr_subdirectory = 0x10

abbrev pub fattr_device : ℕ
fattr_device = 0x40

abbrev pub fattr_unused : ℕ
fattr_unused = 0x80

abbrev pub fattr_lfn : ℕ
fattr_lfn = 0x0F

-- A flag of one bit.
unfoldable pub has_flag : (flags flag : ℕ) → Bool
has_flag flags flag = flags / flag % 2 == 1
