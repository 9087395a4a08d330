-- ===== src/Iso/Layout.antt =====
-- The structures of core/filesystems/iso_9660.h.
use juice_os_kernel.Prelude.{
  ℕ, ◌+◌, ◌%◌, Bool, true, false, List, ◌++◌, ◌==◌, if◌then◌else◌, take, drop, replicate,
}
use juice_os_kernel.Fat.Layout.{u8, u16, u32}

-- An `iso9660_direntry` is its bytes, those behind it included.
unfoldable pub record_length : List ℕ → ℕ
record_length entry = u8 entry 0

unfoldable pub location_lba : List ℕ → ℕ
location_lba entry = u32 entry 2

unfoldable pub data_length : List ℕ → ℕ
data_length entry = u32 entry 10

unfoldable pub record_flags : List ℕ → ℕ
record_flags entry = u8 entry 25

unfoldable pub filename_size : List ℕ → ℕ
filename_size entry = u8 entry 32

unfoldable pub filename_start : List ℕ → List ℕ
filename_start entry = drop 33 entry

-- The places of the system use area, counted from the entry on.
unfoldable pub get_sua : List ℕ → ℕ
get_sua entry =
    let ptr = 33 + filename_size entry in if filename_size entry % 2 == 0 then ptr + 1 else ptr

unfoldable pub get_sua_end : List ℕ → ℕ
get_sua_end entry = record_length entry

-- The fields of an `iso9660_volumedesc`, those of a primary descriptor included.
pub record VolumeDesc : Type 0 where
  pub type : ℕ
  pub identifier : List ℕ
  pub version : ℕ
  pub volume_id : List ℕ
  pub volume_space_size : ℕ
  pub logical_block_size : ℕ
  pub root_directory_entry : List ℕ

unfoldable pub volume_desc_of : List ℕ → VolumeDesc
volume_desc_of bytes = record {
  type = u8 bytes 0;
  identifier = take 5 (drop 1 bytes);
  version = u8 bytes 6;
  volume_id = take 32 (drop 40 bytes);
  volume_space_size = u32 bytes 80;
  logical_block_size = u16 bytes 128;
  root_directory_entry = take 34 (drop 156 bytes);
}

abbrev pub primary_desc_volume : ℕ
primary_desc_volume = 1

abbrev pub volume_desc_set_terminator : ℕ
volume_desc_set_terminator = 255

-- A `susp_tag` is its bytes.
unfoldable pub tag_name : List ℕ → List ℕ
tag_name tag = take 2 tag

unfoldable pub tag_length : List ℕ → ℕ
tag_length tag = u8 tag 2

unfoldable pub tag_version : List ℕ → ℕ
tag_version tag = u8 tag 3

unfoldable pub tag_content : List ℕ → List ℕ
tag_content tag = drop 4 tag

pub record VolumeInfo : Type 0 where
  pub has_pvd : Bool
  pub primary_volume_desc_lba : ℕ
  pub volume_id : List ℕ
  pub space_size : ℕ
  pub logical_block_size : ℕ
  pub root_dir : List ℕ

abbrev pub no_volume_info : VolumeInfo
no_volume_info = record {
  has_pvd = false;
  primary_volume_desc_lba = 0;
  volume_id = replicate 33 0;
  space_size = 0;
  logical_block_size = 0;
  root_dir = replicate 34 0;
}

-- The parameter hides the field, so that the field is left as it is.
unfoldable pub set_primary_volume_desc_lba : (primary_volume_desc_lba : ℕ) → VolumeInfo → VolumeInfo
set_primary_volume_desc_lba primary_volume_desc_lba info = record info { has_pvd = true }

-- The structure has 33 bytes before its name, which are those that are copied.
unfoldable pub set_root_dir_entry : (entry : List ℕ) → VolumeInfo → VolumeInfo
set_root_dir_entry entry info = record info { root_dir = take 33 entry ++ drop 33 info.root_dir }
