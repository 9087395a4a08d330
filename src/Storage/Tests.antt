-- ===== src/Storage/Tests.antt =====
-- Partitions of a disk in memory.
use juice_os_kernel.Prelude.{
  Option, none, map, ◌==◌, ℕ, zero, suc, ◌+◌, ◌-◌, ◌*◌, ◌≤◌, ◌≡◌, refl, ◌⊎◌, false, ◌&&◌, some,
  List, [], ◌∷◌, ◌++◌, arith, ltb, leb, if◌then◌else◌, length, get_or,
}
use juice_os_kernel.Storage.Defs.{BlockDevice, Partition, partition_device, Mbr}
use juice_os_kernel.Storage.Mounting.{mount_all}
use juice_os_kernel.Storage.Volumes.{fresh, all_volumes, mount_all-all_volumes}
use juice_os_kernel.Storage.Partitions.{KeepsOthers, write_sectors-unseen, used_partitions}

-- A disk is a word for each address, and a sector has 256 words.
abbrev Disk : Type 0
Disk = ℕ → ℕ

abbrev read_words : (n address : ℕ) → Disk → List ℕ
read_words zero address disk = []
read_words (suc n) address disk = disk address ∷ read_words n (address + 1) disk

abbrev write_words : (start end_address : ℕ) → List ℕ → Disk → Disk
write_words start end_address words disk address =
    if leb start address && ltb address end_address
    then get_or words (address - start) 0
    else disk address

abbrev ram_disk : BlockDevice Disk
ram_disk = record {
  read_sectors = λ start count disk. read_words (256 * count) (256 * start) disk;
  write_sectors =
      λ start count words disk. write_words (256 * start) (256 * (start + count)) words disk;
  total_sectors = 64;
}

read_words-write_words :
    (n address start end_address : ℕ) (words : List ℕ) (disk : Disk)
    → (end_address ≤ address) ⊎ (address + n ≤ start)
    → read_words n address (write_words start end_address words disk) ≡ read_words n address disk
read_words-write_words zero address start end_address words disk h = refl
read_words-write_words (suc n) address start end_address words disk h =
    let outside : (leb start address && ltb address end_address) ≡ false = ground arith in
    let later : (end_address ≤ address + 1) ⊎ (address + 1 + n ≤ start) = ground arith in
    rw (outside, read_words-write_words n (address + 1) start end_address words disk later) refl

ram_disk-KeepsOthers : KeepsOthers ram_disk
ram_disk-KeepsOthers start count words from n disk h =
    let apart : (256 * (start + count) ≤ 256 * from) ⊎ (256 * from + 256 * n ≤ 256 * start) =
      ground arith in
    read_words-write_words (256 * n) (256 * from) (256 * start) (256 * (start + count)) words disk
      apart

abbrev second_half : Partition Disk
second_half = record { dev = ram_disk; offset = 32; size = 32 }

-- A write of sector 0 of the second half is not found there.
write_sectors-unseen_example :
    (partition_device second_half).read_sectors 0 1
      ((partition_device second_half).write_sectors 0 1 (7 ∷ []) (λ w. 0))
    ≡ (partition_device second_half).read_sectors 0 1 (λ w. 0)
write_sectors-unseen_example =
    write_sectors-unseen second_half ram_disk-KeepsOthers 0 1 (7 ∷ []) 0 1 (λ w. 0) (omega arith)
      (omega arith)

abbrev boot_record : Mbr
boot_record = record {
  partitions =
      record { system_id = 0xc; start_lba = 2; lba_size = 30 }
      ∷ record { system_id = 0; start_lba = 0; lba_size = 0 }
      ∷ record { system_id = 0x83; start_lba = 32; lba_size = 32 }
      ∷ record { system_id = 0; start_lba = 0; lba_size = 0 }
      ∷ [];
  boot_sig = 0xAA55;
}

finds_two : length {A = Partition Disk} (used_partitions ram_disk boot_record.partitions) ≡ 2
finds_two = refl

-- A disk whose second partition, of 32 sectors, has a file system.
abbrev one_probe : BlockDevice Disk → Option ℕ
one_probe device = if device.total_sectors == 32 then some 1 else none

abbrev first_sector : BlockDevice Disk → Mbr
first_sector device = boot_record

mount_all-all_volumes_example :
    mount_all one_probe first_sector (map fresh (ram_disk ∷ [])) []
    ≡ some ([] ++ all_volumes one_probe first_sector (ram_disk ∷ []))
mount_all-all_volumes_example =
    mount_all-all_volumes one_probe first_sector (ram_disk ∷ []) [] (λ device. omega arith)
      (omega arith)

mounts_one : length (all_volumes one_probe first_sector (ram_disk ∷ [])) ≡ 1
unfolding partition_device
mounts_one = refl
