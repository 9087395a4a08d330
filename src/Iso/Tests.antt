-- ===== src/Iso/Tests.antt =====
-- CDs with a few bytes.
use juice_os_kernel.Prelude.{
  ℕ, ◌+◌, ◌-◌, ◌*◌, ◌/◌, ◌%◌, ◌^◌, min, ◌≡◌, refl, false, some, List, [], ◌∷◌, ◌++◌, arith, ◌==◌,
  if◌then◌else◌, take, drop, replicate, length-replicate,
}
use juice_os_kernel.Text.Defs.{mem_compare}
use juice_os_kernel.Fat.Layout.{u8, u16}
use juice_os_kernel.Iso.Layout.{volume_desc_of, no_volume_info}
use juice_os_kernel.Iso.Probe.{cd001, is_volume_desc, with_pvd, probe, found, endless}
use juice_os_kernel.Iso.Probing.{
  desc_at, Others, IsPrimary, IsTerminator, probe-found, probe-endless,
}
use juice_os_kernel.Iso.Names.{Iso9660}
use juice_os_kernel.Iso.Directories.{resolve_path_part}
use juice_os_kernel.Iso.Listing.{searched, first_named, listed, resolve_path_part-first_named}
use juice_os_kernel.Fat.Layout.{FileState}
use juice_os_kernel.Iso.FileData.{Device, read_cd_sector, read_file}
use juice_os_kernel.Iso.Contents.{IsCd, sectors, read_file-sectors}

-- Each sector of the CD holds its number in each byte.
abbrev device : Device
device start count = replicate 2048 (start / 4)

device-IsCd : IsCd device
unfolding read_cd_sector
device-IsCd x = length-replicate 2048 (x * 4 % 2 ^ 32 / 4)

-- A file of 3,000 bytes, with the position near the end of its first sector.
abbrev near_end : FileState
near_end = record { inode = 20; size = 3000; flags = 0; position = 2046 }

read_file-sectors_example :
    read_file device near_end 4
    ≡ some (
      record near_end { position = 2046 + min 4 (3000 - 2046) },
      take (min 4 (3000 - 2046)) (drop 2046 (sectors device 20 2)),
    )
read_file-sectors_example =
    read_file-sectors device device-IsCd near_end 4 2 (omega arith) (omega arith) (omega arith)

-- The descriptors of a disk: a primary one in sector 16, and the terminator in all others.
abbrev desc_bytes : (type : ℕ) → List ℕ
desc_bytes type = type ∷ cd001 ++ (1 ∷ replicate 121 0 ++ (0x00 ∷ 0x08 ∷ replicate 60 0))

abbrev disk : Device
disk start count = if start == 64 then desc_bytes 1 else desc_bytes 255

no-Others : (i : ℕ) → Others disk i 0
no-Others i k h = ground arith

disk-IsPrimary : IsPrimary disk 0
unfolding read_cd_sector volume_desc_of is_volume_desc u8 u16 mem_compare
disk-IsPrimary = record { is_valid = refl; is_primary = refl; has_common_size = refl }

disk-IsTerminator : IsTerminator disk 1
unfolding read_cd_sector volume_desc_of is_volume_desc u8 u16 mem_compare
disk-IsTerminator = record { is_valid = refl; is_terminator = refl }

probe-found_example : probe 2 disk ≡ found (with_pvd 16 (desc_at disk 0) no_volume_info)
probe-found_example =
    probe-found 0 0 0 disk (omega arith) (no-Others 0) disk-IsPrimary (no-Others 1)
      disk-IsTerminator

-- A disk with a primary descriptor in each sector.
abbrev all_primary : Device
all_primary start count = desc_bytes 1

all_primary-IsPrimary : (i : ℕ) → IsPrimary all_primary i
unfolding read_cd_sector volume_desc_of is_volume_desc u8 u16 mem_compare
all_primary-IsPrimary i = record { is_valid = refl; is_primary = refl; has_common_size = refl }

no_primary-Others : (i : ℕ) → Others all_primary i 0
no_primary-Others i k h = ground arith

probe-endless_example : probe 1000 all_primary ≡ endless
probe-endless_example =
    probe-endless 0 0 999 all_primary (omega arith) (no_primary-Others 0) (all_primary-IsPrimary 0)
      (no_primary-Others 1) (all_primary-IsPrimary 1)

-- A directory of one entry, whose name is `A;1`, in sector 20.
abbrev root_bytes : List ℕ
root_bytes =
    36 ∷ 0 ∷ 21 ∷ 0 ∷ 0 ∷ 0 ∷ 0 ∷ 0 ∷ 0 ∷ 0 ∷ 5 ∷ replicate 21 0
    ++ (3 ∷ b'A' ∷ b';' ∷ b'1' ∷ replicate 100 0)

abbrev one_file : Device
one_file start count = root_bytes

abbrev driver : Iso9660
driver = record {
  device = one_file;
  volume_info = no_volume_info;
  supports_susp = false;
  supports_rock_ridge = false;
  temp_read_buffer = 0x2000;
  temp_susp_traverser_read_buffer = 0x3000;
}

resolve_path_part-first_named_example :
    resolve_path_part 0 driver 20 36 (b'A' ∷ [])
    ≡ searched (first_named driver (b'A' ∷ []) (listed ((36 + 2047) / 2048) one_file 20))
resolve_path_part-first_named_example =
    resolve_path_part-first_named 0 driver 20 36 (b'A' ∷ []) refl (omega arith)
