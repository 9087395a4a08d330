-- ===== src/Fat/Clusters.antt =====
-- The clusters of a volume and their directory entries: FAT and ClusterReader of core/filesystems/fat.cpp.
use juice_os_kernel.Prelude.{
  ℕ, zero, suc, ◌+◌, ◌-◌, ◌*◌, ◌/◌, ◌%◌, ◌^◌, Bool, false, not, ◌&&◌, Option, none, some, List, [],
  ◌∷◌, ltb, leb, ◌==◌, if◌then◌else◌, length, take, drop,
}
use juice_os_kernel.Text.Copies.{c_string}
use juice_os_kernel.Fat.Layout.{
  u8, u16, u32, FatType, fat12, fat16, fat32, exfat, FileState, VolumeInfo, attributes,
  first_cluster, file_size, has_flag, fattr_subdirectory, fattr_volumelabel,
}
use juice_os_kernel.Fat.Entries.{EntryParser, handle_next}

-- A mounted volume: what probe found, the table that on_init loaded, and the reads of the device.
pub record Fat : Type 0 where
  pub volume_info : VolumeInfo
  pub loaded_fat : List ℕ
  pub device_read : (start count : ℕ) → List ℕ

-- A read of `size` bytes at `index` of the loaded table; `none` is one behind its end.
abbrev pub within : (fat : List ℕ) → (index size value : ℕ) → Option ℕ
within fat index size value = if leb (index + size) (length fat) then some value else none

-- A table of 16 bits is read as such; one of 12 bits has two entries in three bytes.
unfoldable pub next_in : FatType → (fat : List ℕ) → (cluster : ℕ) → Option ℕ
next_in fat12 fat cluster =
    let index = cluster + cluster / 2 in
    let value = u16 fat index in
    within fat index 2 (if cluster % 2 == 1 then value / 16 else value % 0x1000)
next_in fat16 fat cluster = within fat (2 * cluster) 2 (u16 fat (2 * cluster))
next_in fat32 fat cluster = within fat (4 * cluster) 4 (u32 fat (4 * cluster) % 0x10000000)
next_in exfat fat cluster = within fat (4 * cluster) 4 (u32 fat (4 * cluster) % 0x10000000)

unfoldable pub next_cluster : Fat → (cluster : ℕ) → Option ℕ
next_cluster driver cluster = next_in driver.volume_info.type driver.loaded_fat cluster

-- The device has sectors of 512 bytes.
unfoldable pub load_sectors : Fat → (lba sectors : ℕ) → List ℕ
load_sectors driver lba sectors =
    let sector_converter = driver.volume_info.bytes_per_sector / 512 in
    driver.device_read (lba * sector_converter) (sectors * sector_converter)

pub record ClusterReader : Type 0 where
  pub cluster : ℕ
  pub buffer : List ℕ
  pub read_bytes : ℕ
  pub has_more_data : Bool

abbrev pub reader_at : (cluster : ℕ) → ClusterReader
reader_at cluster = record { cluster = cluster; buffer = []; read_bytes = 0; has_more_data = false }

-- The sector and the count of a cluster; cluster 0 is the root directory before the data.
unfoldable pub start_sector : Fat → (cluster : ℕ) → ℕ
start_sector driver cluster =
    if cluster == 0
    then driver.volume_info.root_directory_lba
    else (driver.volume_info.data_lba
        + (cluster + 2 ^ 32 - 2) % 2 ^ 32 * driver.volume_info.sectors_per_cluster)
      % 2 ^ 32

unfoldable pub read_count : Fat → (cluster : ℕ) → ℕ
read_count driver cluster =
    if cluster == 0
    then driver.volume_info.root_dir_sectors
    else driver.volume_info.sectors_per_cluster

abbrev pub cluster_bytes : Fat → (cluster : ℕ) → List ℕ
cluster_bytes driver cluster =
    load_sectors driver (start_sector driver cluster) (read_count driver cluster)

abbrev pub advance_to : Fat → (cluster : ℕ) → Option ℕ → Option ClusterReader
advance_to driver cluster none = none
advance_to driver cluster (some next) = some (record {
  cluster = next;
  buffer = cluster_bytes driver cluster;
  read_bytes = read_count driver cluster * driver.volume_info.bytes_per_sector;
  has_more_data = ltb next driver.volume_info.chain_end_cluster;
})

unfoldable pub read_next : Fat → ClusterReader → Option ClusterReader
read_next driver reader =
    if reader.cluster == 0
    then some (record {
      cluster = 0;
      buffer = cluster_bytes driver 0;
      read_bytes = read_count driver 0 * driver.volume_info.bytes_per_sector;
      has_more_data = false;
    })
    else advance_to driver reader.cluster (next_cluster driver reader.cluster)

-- The directory entries of a buffer.
unfoldable pub as_dir : (count : ℕ) → List ℕ → List (List ℕ)
as_dir zero bytes = []
as_dir (suc count) bytes = take 32 bytes ∷ as_dir count (drop 32 bytes)

-- `kstorage::DirEntry` without its name's buffer.
pub data DirEntryType : Type 0 where
  directory file special : DirEntryType

pub record DirEntry : Type 0 where
  pub type : DirEntryType
  pub name : List ℕ
  pub file_state : FileState

unfoldable pub entry_type : (flags : ℕ) → DirEntryType
entry_type flags =
    if has_flag flags fattr_volumelabel
    then special
    else if has_flag flags fattr_subdirectory
    then directory
    else file

-- The state of a file that an entry stands for. Only the low half of the cluster is used.
unfoldable pub state_of : (entry : List ℕ) → FileState
state_of entry = record {
  inode = first_cluster entry;
  size = file_size entry;
  flags = attributes entry;
  position = 0;
}

abbrev pub found_entry : (entry filename_buff : List ℕ) → DirEntry
found_entry entry filename_buff = record {
  type = entry_type (attributes entry);
  name = c_string filename_buff;
  file_state = state_of entry;
}

-- What the loop over the entries of a cluster comes to: it goes on with the next cluster, it has
-- returned, or a name was written outside of its buffer.
pub data Scanned (S : Type 0) : Type 0 where
  scanned : S → (filename_buff : List ℕ) → EntryParser → Scanned S
  returned : S → Scanned S
  outside : Scanned S

-- The loop over the entries of a cluster, with what is done for an entry that has a name: the new
-- state, and whether to go on. An entry that begins with 0 ends this cluster.
unfoldable pub scan_entries :
    {S : Type 0}
    → (visit : DirEntry → S → S × Bool) → List (List ℕ)
    → (filename_buff : List ℕ) → EntryParser
    → S
    → Scanned S
scan_entries visit [] filename_buff parser s = scanned s filename_buff parser
scan_entries {S} visit (entry ∷ entries) filename_buff parser s =
    let handled : Scanned S = elim (handle_next entry filename_buff parser) [
      | none ↦ outside
      | some h ↦
          let (visited, goes_on) = visit (found_entry entry h.filename_buff) s in
          let rest =
            scan_entries visit entries h.filename_buff h.parser
              (if h.is_ready then visited else s) in
          if h.is_ready && not goes_on then returned visited else rest
    ] in
    if u8 entry 0 == 0 then scanned s filename_buff parser else handled
