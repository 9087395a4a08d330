-- ===== src/Fat/Tests.antt =====
-- A floppy disk and a small volume, and the theorems about FAT at them.
use juice_os_kernel.Prelude.{
  ℕ, ◌+◌, ◌*◌, ◌≡◌, refl, ◌∙◌, some, List, [], ◌∷◌, ◌++◌, map, arith, length, take, drop, replicate,
  length-replicate, IsBytes, IsBytes-append, IsBytes-replicate, over,
}
use juice_os_kernel.BitmapAllocator.Defs.{divide_round_up}
use juice_os_kernel.Text.Defs.{
  mem_compare, spaced_string_to_cstr, trimmed_length, strlcpy, strlcpy_loop, terminate,
}
use juice_os_kernel.Fat.Layout.{
  u8, u16, u32, bpb_of, fsinfo_of, fat12, fat16, FileState, VolumeInfo, attributes, first_cluster,
  file_size, has_flag,
}
use juice_os_kernel.Fat.Probe.{
  probe, label_of, is_supported, is_valid_sector_size, is_power_of_two, sectors_per_fat_of,
  total_sectors_of, root_dir_sectors_of, system_sectors_of, data_sectors_of, fat_type_of,
}
use juice_os_kernel.Fat.Geometry.{IsVolume, probe-IsVolume}
use juice_os_kernel.Fat.Entries.{
  handle_next, calculate_checksum, checksum_loop, short_name, file_short_name, add_dot,
  add_extension,
}
use juice_os_kernel.Fat.NameTests.{readme, name_buffer}
use juice_os_kernel.Fat.Clusters.{
  Fat, next_cluster, next_in, reader_at, load_sectors, read_count, start_sector, read_next, as_dir,
  file, scan_entries, entry_type, state_of,
}
use juice_os_kernel.Fat.Table.{encode, next_cluster-encode}
use juice_os_kernel.Fat.Files.{finished, walk, walk_from, new_parser, resolve_path_part}
use juice_os_kernel.Fat.Chains.{Chain, last, more, entries_of, scan_clusters, walk-scan_clusters}
use juice_os_kernel.Fat.Lookup.{resolve_path_part-listed}
use juice_os_kernel.Fat.Scans.{list_entry, found_walk, found_in}
use juice_os_kernel.Fat.FileData.{read_file}
use juice_os_kernel.Fat.Reads.{read_file-over, read_file_overwrites}
use juice_os_kernel.Fat.Rounds.{cluster_size}

-- The boot sector of a floppy disk.
abbrev floppy_front : List ℕ
floppy_front =
    0xEB ∷ 0x3C ∷ 0x90 ∷ b'M' ∷ b'S' ∷ b'D' ∷ b'O' ∷ b'S' ∷ b'5' ∷ b'.' ∷ b'0' ∷ 0 ∷ 2 ∷ 1 ∷ 1 ∷ 0
    ∷ 2 ∷ 224 ∷ 0 ∷ 0x40 ∷ 0x0B ∷ 0xF0 ∷ 9 ∷ 0 ∷ 18 ∷ 0 ∷ 2 ∷ 0 ∷ 0 ∷ 0 ∷ 0 ∷ 0 ∷ 0 ∷ 0 ∷ 0 ∷ 0 ∷ 0
    ∷ 0 ∷ 0x29 ∷ 1 ∷ 2 ∷ 3 ∷ 4 ∷ b'D' ∷ b'I' ∷ b'S' ∷ b'K' ∷ b' ' ∷ b' ' ∷ b' ' ∷ b' ' ∷ b' ' ∷ b' '
    ∷ b' ' ∷ []

abbrev floppy : ℕ → List ℕ
floppy lba = floppy_front ++ (replicate 456 0 ++ (0x55 ∷ 0xAA ∷ []))

abbrev floppy_info : VolumeInfo
floppy_info = record {
  type = fat12;
  bpb_volume_label =
      b'D' ∷ b'I' ∷ b'S' ∷ b'K' ∷ 0 ∷ b' ' ∷ b' ' ∷ b' ' ∷ b' ' ∷ b' ' ∷ b' ' ∷ 0 ∷ [];
  bytes_per_sector = 512;
  sectors_per_cluster = 1;
  reserved_sectors = 1;
  sectors_per_fat = 9;
  root_dir_entries = 224;
  fat_count = 2;
  total_sectors = 2880;
  fat_lba = 1;
  root_directory_lba = 19;
  data_lba = 33;
  root_dir_sectors = 14;
  data_sectors = 2847;
  total_clusters = 2847;
  root_directory_file = record { inode = 0; size = 14; flags = 0x10; position = 0 };
  chain_end_cluster = 0xFF7;
}

floppy_found : probe floppy ≡ some floppy_info
unfolding probe bpb_of fsinfo_of u8 u16 u32 label_of is_supported is_valid_sector_size
    is_power_of_two sectors_per_fat_of total_sectors_of root_dir_sectors_of system_sectors_of
    data_sectors_of fat_type_of mem_compare spaced_string_to_cstr trimmed_length divide_round_up
floppy_found = refl

floppy-IsBytes : IsBytes (floppy 0)
floppy-IsBytes = IsBytes-append floppy_front (replicate 456 0 ++ (0x55 ∷ 0xAA ∷ [])) (omega arith) (
    IsBytes-append (replicate 456 0) (0x55 ∷ 0xAA ∷ []) (IsBytes-replicate 456 0 (omega arith))
      (omega arith))

probe-IsVolume_example : IsVolume floppy_info
probe-IsVolume_example = probe-IsVolume floppy floppy_info floppy-IsBytes floppy_found

-- A volume with clusters of one sector: the chain of cluster 2 goes on with cluster 3 and ends there.
abbrev table : List ℕ
table = 0xfff8 ∷ 0xffff ∷ 3 ∷ 0xffff ∷ []

abbrev small : Fat
small = record {
  volume_info = record floppy_info { type = fat16; chain_end_cluster = 0xFFF7 };
  loaded_fat = encode fat16 table;
  device_read = λ start count. replicate (512 * count) start;
}

next_cluster-encode_example : next_cluster small 2 ≡ some 3
next_cluster-encode_example = next_cluster-encode small table 2 3 refl (omega arith) refl

next_of_3 : next_cluster small 3 ≡ some 0xffff
next_of_3 = next_cluster-encode small table 3 0xffff refl (omega arith) refl

chain_of_2 : Chain small 2 (2 ∷ 3 ∷ [])
chain_of_2 =
    more (omega arith) next_cluster-encode_example (omega arith)
      (last 0xffff (omega arith) next_of_3 (omega arith))

walk-scan_clusters_example :
    walk 2 small list_entry (reader_at 2) name_buffer new_parser []
    ≡ scan_clusters list_entry (map (entries_of small) (2 ∷ 3 ∷ [])) name_buffer new_parser []
walk-scan_clusters_example =
    walk-scan_clusters chain_of_2 list_entry 2 (reader_at 2) name_buffer new_parser [] (omega arith)
      refl

-- A directory of one cluster with one file.
abbrev with_file : Fat
with_file = record small {
  device_read = λ start count. readme ++ replicate 480 0;
  loaded_fat = encode fat16 (0xfff8 ∷ 0xffff ∷ 0xffff ∷ []);
}

abbrev readme_text : List ℕ
readme_text = b'R' ∷ b'E' ∷ b'A' ∷ b'D' ∷ b'M' ∷ b'E' ∷ b'.' ∷ b'T' ∷ b'X' ∷ b'T' ∷ []

lists_one :
    walk_from 1 with_file list_entry 2 name_buffer []
    ≡ finished (
        record {
          type = file;
          name = readme_text;
          file_state = record { inode = 2; size = 0x400; flags = 0x20; position = 0 };
        }
        ∷ [])
unfolding walk read_next next_cluster next_in read_count load_sectors start_sector as_dir
    scan_entries handle_next short_name file_short_name add_dot add_extension strlcpy strlcpy_loop
    terminate spaced_string_to_cstr trimmed_length u8 u16 u32 attributes has_flag entry_type
    state_of first_cluster file_size calculate_checksum checksum_loop
lists_one = refl

resolve_path_part-listed_example :
    resolve_path_part 1 with_file 2 readme_text name_buffer
    ≡ found_walk (
        found_in readme_text (
          record {
            type = file;
            name = readme_text;
            file_state = record { inode = 2; size = 0x400; flags = 0x20; position = 0 };
          }
          ∷ []))
resolve_path_part-listed_example =
    resolve_path_part-listed 1 with_file 2 readme_text name_buffer _ lists_one

-- A file of 1024 bytes in the two clusters.
abbrev two_clusters : FileState
two_clusters = record { inode = 2; size = 1024; flags = 0x20; position = 0 }

abbrev wide_buffer : List ℕ
wide_buffer = replicate 1024 0

length_of_cluster : (n v : ℕ) → length (replicate (512 * (n * 1)) v) ≡ n * 512
length_of_cluster n v = length-replicate {A = ℕ} (512 * (n * 1)) v ∙ omega arith

cluster_2 :
    length (load_sectors small (start_sector small 2) (read_count small 2)) ≡ cluster_size small
unfolding load_sectors read_count
cluster_2 = length_of_cluster 1 (start_sector small 2 * 1)

cluster_3 :
    length (load_sectors small (start_sector small 3) (read_count small 3)) ≡ cluster_size small
unfolding load_sectors read_count
cluster_3 = length_of_cluster 1 (start_sector small 3 * 1)

read_file-over_example :
    read_file 1 small (record two_clusters { position = 10 }) wide_buffer 20
    ≡ finished (
      record two_clusters { position = 10 + 20 },
      over
          (take 20 (drop 10 (load_sectors small (start_sector small 2) (read_count small 2))))
          wide_buffer,
    )
read_file-over_example =
    read_file-over 0 3 small (record two_clusters { position = 10 }) wide_buffer 20 (omega arith)
      (omega arith) (omega arith) (omega arith) next_cluster-encode_example cluster_2 (omega arith)
      (omega arith) (omega arith) (omega arith) (omega (arith, length-replicate {A = ℕ} 1024 0))

read_file_overwrites_example :
    read_file 2 small two_clusters wide_buffer 1024
    ≡ finished (
      record two_clusters { position = 1024 },
      over (load_sectors small (start_sector small 3) (read_count small 3)) wide_buffer,
    )
read_file_overwrites_example =
    read_file_overwrites 0 3 0xffff small two_clusters wide_buffer (omega arith) (omega arith)
      (omega arith) (omega arith) (omega arith) next_cluster-encode_example (omega arith) next_of_3
      cluster_2 cluster_3 refl refl (omega (arith, length-replicate {A = ℕ} 1024 0))
