-- ===== src/Storage/Defs.antt =====
-- The partitions of core/drivers/storage.cpp and core/drivers/storage.h, with the boot record of core/filesystems/mbr.h.
use juice_os_kernel.Prelude.{
  ℕ, ◌+◌, ◌%◌, ◌^◌, Bool, ◌||◌, Option, none, some, List, [], ◌∷◌, ◌++◌, leb, ◌==◌, if◌then◌else◌,
  length,
}

-- The virtual functions of a device that keeps an `S`; a write is given the words of its sectors.
pub record BlockDevice (S : Type 0) : Type 0 where
  pub read_sectors : (start count : ℕ) → S → List ℕ
  pub write_sectors : (start count : ℕ) → (words : List ℕ) → S → S
  pub total_sectors : ℕ

pub record Partition (S : Type 0) : Type 0 where
  pub dev : BlockDevice S
  pub offset : ℕ
  pub size : ℕ

-- A partition as a device: `read` adds the offset, and `write` hands its arguments on.
unfoldable pub partition_device : {S : Type 0} → Partition S → BlockDevice S
partition_device p = record {
  read_sectors = λ start count s. p.dev.read_sectors ((p.offset + start) % 2 ^ 32) count s;
  write_sectors = λ start count words s. p.dev.write_sectors start count words s;
  total_sectors = p.size;
}

pub record MbrPartition : Type 0 where
  pub system_id : ℕ
  pub start_lba : ℕ
  pub lba_size : ℕ

pub record Mbr : Type 0 where
  pub partitions : List MbrPartition
  pub boot_sig : ℕ

abbrev pub max_devices : ℕ
max_devices = 16

-- `none` is the panic.
unfoldable pub register_partition :
    {S : Type 0} → List (Partition S) → Partition S → Option (List (Partition S))
register_partition childs partition =
    if leb max_devices (length childs) then none else some (childs ++ (partition ∷ []))

abbrev pub is_empty : MbrPartition → Bool
is_empty part = (part.system_id == 0) || (part.lba_size == 0)

abbrev pub new_partition : {S : Type 0} → BlockDevice S → MbrPartition → Partition S
new_partition device part = record { dev = device; offset = part.start_lba; size = part.lba_size }

unfoldable pub register_all :
    {S : Type 0}
    → BlockDevice S
    → List MbrPartition
    → List (Partition S)
    → Option (List (Partition S))
register_all device [] childs = some childs
register_all {S} device (part ∷ parts) childs =
    let skipped = register_all device parts childs in
    let registered : Option (List (Partition S)) =
      elim (register_partition childs (new_partition device part)) [
        | none ↦ none
        | some childs' ↦ register_all device parts childs'
      ] in
    if is_empty part then skipped else registered

-- The partitions of a drive, with the boot record that its first sector holds.
unfoldable pub analyze_partitioning :
    {S : Type 0} → BlockDevice S → Mbr → List (Partition S) → Option (List (Partition S))
analyze_partitioning device mbr childs =
    if mbr.boot_sig == 0xAA55 then register_all device mbr.partitions childs else some childs
