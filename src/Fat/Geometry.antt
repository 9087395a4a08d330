-- ===== src/Fat/Geometry.antt =====
-- The geometry of the volumes that probe of core/filesystems/fat.cpp accepts.
use juice_os_kernel.Prelude.{
  ℕ, zero, suc, ◌+◌, ◌-◌, ◌*◌, ◌/◌, ◌%◌, ◌^◌, ◌≤◌, ◌<◌, ◌≡◌, refl, subst, ◌≢◌, ◌⊎◌, inl, inr, Bool,
  true, false, Option, none, some, List, [], ◌∷◌, arith, if◌then◌else◌, dec_lt, get_or, IsBytes,
}
use native.Mathlib.Nat.{mul-div-le, mul_comm, mul-le-mul}
use juice_os_kernel.Fat.Layout.{
  fattr_subdirectory, FatBpb, bpb_of, u8, u16, u32, FatFsinfo, FatType, fat12, fat16, fat32, exfat,
  FileState, VolumeInfo,
}
use juice_os_kernel.Fat.Checks.{
  FitsType, IsSectorSize, fat_type_of-FitsType, is_valid_sector_size-IsSectorSize,
  is_power_of_two-pow,
}
use juice_os_kernel.Fat.Probe.{
  is_power_of_two, is_valid_sector_size, is_supported, sectors_per_fat_of, total_sectors_of,
  root_dir_sectors_of, system_sectors_of, data_sectors_of, fat_type_of, info_of, has_fsinfo,
  fill_in, root_file, has_signature, check_type, probe,
}

-- The cluster numbers from which on a chain has ended.
abbrev pub EndsChain : FatType → (chain_end : ℕ) → Type 0
EndsChain fat12 chain_end = chain_end ≡ 0xFF7
EndsChain fat16 chain_end = chain_end ≡ 0xFFF7
EndsChain fat32 chain_end = chain_end ≡ 0x0FFFFFF7
EndsChain exfat chain_end = ⊥

-- The root directory: cluster 0 stands for the area before the data.
abbrev pub IsRoot : FatType → (root_dir_sectors : ℕ) → FileState → Type 0
IsRoot fat12 root_dir_sectors root = (root.inode ≡ 0) × (root.size ≡ root_dir_sectors)
IsRoot fat16 root_dir_sectors root = (root.inode ≡ 0) × (root.size ≡ root_dir_sectors)
IsRoot fat32 root_dir_sectors root = root.size ≡ 0
IsRoot exfat root_dir_sectors root = ⊥

-- A volume that the driver can read. A volume smaller than its own tables is the exception of `inside`.
pub record IsVolume (info : VolumeInfo) : Type 0 where
  pub sector_size : IsSectorSize info.bytes_per_sector
  pub cluster_size : (k : ℕ) × (k < 8) × (info.sectors_per_cluster ≡ 2 ^ k)
  pub kind : FitsType info.type info.total_clusters info.root_dir_sectors
  pub chain_end : EndsChain info.type info.chain_end_cluster
  pub root : IsRoot info.type info.root_dir_sectors info.root_directory_file
  pub root_directory : info.root_directory_file.flags ≡ fattr_subdirectory
  pub fat_before_root : (0 < info.fat_lba) × (info.fat_lba < info.root_directory_lba)
  pub root_before_data : info.root_directory_lba + info.root_dir_sectors ≡ info.data_lba
  pub inside :
      (info.total_sectors < info.data_lba)
      ⊎ (info.data_lba + info.total_clusters * info.sectors_per_cluster ≤ info.total_sectors)

-- What belongs to the type of a volume alone.
abbrev Typed : FatType → (root_dir_sectors : ℕ) → FileState → (chain_end : ℕ) → Type 0
Typed type root_dir_sectors root chain_end =
    EndsChain type chain_end × IsRoot type root_dir_sectors root × (root.flags ≡ fattr_subdirectory)

-- What the checks leave of a volume: its type, and the fields that do not depend on the boot sector's numbers.
abbrev Filled : Option FatType → FatBpb → VolumeInfo → Type 0
Filled o bpb info =
    (type : FatType) × (label : List ℕ) × (root : FileState) × (chain_end : ℕ) × ((o ≡ some type)
      × (type ≢ exfat)
      × Typed type (root_dir_sectors_of bpb) root chain_end
      × (info_of type label root chain_end bpb ≡ info))

then_some {ℓ} :
    {A : Type ℓ} (b : Bool) (o : Option A) (v : A)
    → (if b then o else none) ≡ some v
    → (b ≡ true) × (o ≡ some v)
then_some true o v e = (refl, e)
then_some false o v e = absurd (cc)

check_type-Filled :
    (o : Option FatType) (fsinfo : FatFsinfo) (bpb : FatBpb) (info : VolumeInfo)
    → check_type o fsinfo bpb ≡ some info
    → Filled o bpb info
check_type-Filled none fsinfo bpb info e = absurd (cc)
check_type-Filled (some exfat) fsinfo bpb info e =
    let (b, f) = then_some (has_signature bpb.ebpb_signature) (fill_in exfat fsinfo bpb) info e in
    absurd (cc)
check_type-Filled (some fat32) fsinfo bpb info e =
    let (b, f) = then_some (has_signature bpb.fat32_signature) (fill_in fat32 fsinfo bpb) info e in
    let (c, g) =
      then_some (has_fsinfo fsinfo)
        (some
          (info_of fat32 bpb.fat32_volume_label (root_file bpb.root_dir_cluster 0) 0x0FFFFFF7 bpb))
        info f in
    (
      fat32,
      bpb.fat32_volume_label,
      root_file bpb.root_dir_cluster 0,
      0x0FFFFFF7,
      (refl, cc, (refl, refl, refl), cc),
    )
check_type-Filled (some fat12) fsinfo bpb info e =
    let (b, f) = then_some (has_signature bpb.ebpb_signature) (fill_in fat12 fsinfo bpb) info e in
    (
      fat12,
      bpb.ebpb_volume_label,
      root_file 0 (root_dir_sectors_of bpb),
      0xFF7,
      (refl, cc, (refl, (refl, refl), refl), cc),
    )
check_type-Filled (some fat16) fsinfo bpb info e =
    let (b, f) = then_some (has_signature bpb.ebpb_signature) (fill_in fat16 fsinfo bpb) info e in
    (
      fat16,
      bpb.ebpb_volume_label,
      root_file 0 (root_dir_sectors_of bpb),
      0xFFF7,
      (refl, cc, (refl, (refl, refl), refl), cc),
    )

-- The checks that is_supported makes.
record Supports (bpb : FatBpb) : Type 0 where
  sectors : is_valid_sector_size bpb.bytes_per_sector ≡ true
  clusters : is_power_of_two bpb.sectors_per_cluster ≡ true
  reserved : 0 < bpb.reserved_sectors
  fats : 0 < bpb.fat_count
  table : 0 < sectors_per_fat_of bpb

is_supported-Supports : (bpb : FatBpb) → is_supported bpb ≡ true → Supports bpb
unfolding is_supported
is_supported-Supports bpb e = ground arith

clusters_inside :
    (total system spc : ℕ)
    → total < 2 ^ 32
    → (total < system) ⊎ (system + (total + 2 ^ 32 - system) % 2 ^ 32 / spc * spc ≤ total)
clusters_inside total system spc w = elim (dec_lt total system) [
  | yes h ↦ inl h
  | no h ↦
      let e : (total + 2 ^ 32 - system) % 2 ^ 32 ≡ total - system = omega arith in
      rw e (
        inr (omega (arith, mul-div-le (total - system) spc, mul_comm spc ((total - system) / spc))))
]

info_of-IsVolume :
    (bpb : FatBpb) (type : FatType) (label : List ℕ) (root : FileState) (chain_end : ℕ)
    → Supports bpb
    → fat_type_of (data_sectors_of bpb / bpb.sectors_per_cluster) (root_dir_sectors_of bpb)
      ≡ some type
    → type ≢ exfat
    → Typed type (root_dir_sectors_of bpb) root chain_end
    → total_sectors_of bpb < 2 ^ 32
    → bpb.sectors_per_cluster < 256
    → IsVolume (info_of type label root chain_end bpb)
unfolding system_sectors_of data_sectors_of
info_of-IsVolume bpb type label root chain_end s k n t w small = record {
  sector_size = is_valid_sector_size-IsSectorSize bpb.bytes_per_sector s.sectors;
  cluster_size = is_power_of_two-pow bpb.sectors_per_cluster small s.clusters;
  kind = fat_type_of-FitsType _ _ type k n;
  chain_end = t.0;
  root = t.1;
  root_directory = t.2;
  fat_before_root = (
    s.reserved,
    omega (
      arith,
      mul-le-mul {n₁ = 1} {m₁ = 1} {n₂ = sectors_per_fat_of bpb} {m₂ = bpb.fat_count} s.table
          s.fats,
    ),
  );
  root_before_data = refl;
  inside = clusters_inside (total_sectors_of bpb) _ bpb.sectors_per_cluster w;
}

get_or-byte : (bytes : List ℕ) (i : ℕ) → IsBytes bytes → get_or bytes i 0 < 256
get_or-byte [] i h = omega arith
get_or-byte (b ∷ bytes) zero h = h.0
get_or-byte (b ∷ bytes) (suc i) h = get_or-byte bytes i h.1

total_sectors_of-bounded :
    (bytes : List ℕ) → IsBytes bytes → total_sectors_of (bpb_of bytes) < 2 ^ 32
unfolding total_sectors_of bpb_of u16 u32
total_sectors_of-bounded bytes h =
    let b = λ (i : ℕ). get_or-byte bytes i h in ground (arith, b 19, b 20, b 32, b 33, b 34, b 35)

sectors_per_cluster-byte :
    (bytes : List ℕ) → IsBytes bytes → (bpb_of bytes).sectors_per_cluster < 256
unfolding bpb_of u8
sectors_per_cluster-byte bytes h = get_or-byte bytes 13 h

-- A volume that probe accepts has sectors of 512, 1024, 2048 or 4096 bytes; clusters of a power of
-- two of them, from 1 to 128; as FAT12 at least one cluster and fewer than 4085, as FAT16 from 4085
-- to 65524, as FAT32 65525 or more and no separate root directory, and no other type; the end of
-- chains of its type; as its root directory that area, or for FAT32 a directory without a size; and
-- its reserved sectors, tables, root directory and data in this order. Its clusters lie within the
-- volume, unless what stands before the data is already more than the volume has.
pub probe-IsVolume :
    (sector : ℕ → List ℕ) (info : VolumeInfo)
    → IsBytes (sector 0)
    → probe sector ≡ some info
    → IsVolume info
unfolding probe
probe-IsVolume sector info h e =
    let bpb = bpb_of (sector 0) in
    let (s, f) = then_some (is_supported bpb) _ info e in
    let (type, label, root, chain_end, (k, n, t, g)) = check_type-Filled _ _ bpb info f in
    subst IsVolume g (
      info_of-IsVolume bpb type label root chain_end (is_supported-Supports bpb s) k n t
        (total_sectors_of-bounded (sector 0) h) (sectors_per_cluster-byte (sector 0) h))
