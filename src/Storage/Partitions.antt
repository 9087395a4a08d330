-- ===== src/Storage/Partitions.antt =====
-- What a boot record gives in core/drivers/storage.cpp, and what reads and writes through a partition reach.
use juice_os_kernel.Prelude.{
  ℕ, ◌+◌, ◌%◌, ◌^◌, ◌≤◌, ◌<◌, ◌≡◌, sym, ap, ◌∙◌, ◌⊎◌, inl, inr, false, some, List, [], ◌∷◌, ◌++◌,
  append-nil, append_assoc, arith, leb, if◌then◌else◌, Bool-cases, length, length-append,
}
use juice_os_kernel.Storage.Defs.{
  BlockDevice, Partition, partition_device, MbrPartition, Mbr, max_devices, register_partition,
  is_empty, new_partition, register_all, analyze_partitioning,
}

-- A device keeps what it holds outside the sectors of a write.
abbrev pub KeepsOthers : {S : Type 0} → BlockDevice S → Type 0
KeepsOthers {S} device =
    (start count : ℕ)
    → (words : List ℕ) → (from n : ℕ) → (s : S) → (start + count ≤ from) ⊎ (from + n ≤ start)
    → device.read_sectors from n (device.write_sectors start count words s)
      ≡ device.read_sectors from n s

-- On a device that keeps what lies outside the sectors of a write, a write through a partition to
-- sectors numbered below the partition's offset is not seen by any read through the partition.
pub write_sectors-unseen :
    {S : Type 0}
    → (p : Partition S) → KeepsOthers p.dev
    → (start count : ℕ) → (words : List ℕ) → (from n : ℕ) → (s : S) → start + count ≤ p.offset
    → p.offset + from < 2 ^ 32
    → (partition_device p).read_sectors from n
        ((partition_device p).write_sectors start count words s)
      ≡ (partition_device p).read_sectors from n s
unfolding partition_device
write_sectors-unseen p k start count words from n s h l =
    let small : start + count ≤ (p.offset + from) % 2 ^ 32 = omega arith in
    k start count words ((p.offset + from) % 2 ^ 32) n s (inl small)

-- The partitions that entries of a boot record stand for.
abbrev pub used_partitions : {S : Type 0} → BlockDevice S → List MbrPartition → List (Partition S)
used_partitions device [] = []
used_partitions device (part ∷ parts) =
    if is_empty part
    then used_partitions device parts
    else new_partition device part ∷ used_partitions device parts

register_all-used :
    {S : Type 0}
    → (device : BlockDevice S) → (parts : List MbrPartition) → (childs : List (Partition S))
    → length childs + length parts ≤ max_devices
    → register_all device parts childs ≡ some (childs ++ used_partitions device parts)
unfolding register_all register_partition
register_all-used device [] childs h = ap some (sym (append-nil childs))
register_all-used device (part ∷ parts) childs h = elim (Bool-cases (is_empty part)) [
  | inl e ↦ rw e (register_all-used device parts childs (omega arith))
  | inr e ↦
      let room : leb max_devices (length childs) ≡ false = ground arith in
      let child = new_partition device part in
      let longer : length (childs ++ (child ∷ [])) + length parts ≤ max_devices =
        omega (arith, length-append childs (child ∷ [])) in
      rw (e, room)
        (register_all-used device parts (childs ++ (child ∷ [])) longer
          ∙ ap some (append_assoc childs (child ∷ []) (used_partitions device parts)))
]

-- Where the drive has room for the entries of a boot record with the signature, every entry in use
-- becomes a partition with the entry's start and size, in the order of the table, behind the earlier ones.
pub analyze_partitioning-used :
    {S : Type 0}
    → (device : BlockDevice S) → (mbr : Mbr) → (childs : List (Partition S)) → mbr.boot_sig ≡ 0xAA55
    → length childs + length mbr.partitions ≤ max_devices
    → analyze_partitioning device mbr childs
      ≡ some (childs ++ used_partitions device mbr.partitions)
unfolding analyze_partitioning
analyze_partitioning-used device mbr childs e h =
    rw e (register_all-used device mbr.partitions childs h)
