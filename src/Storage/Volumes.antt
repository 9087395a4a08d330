-- ===== src/Storage/Volumes.antt =====
-- The volumes that init of core/drivers/storage.cpp mounts.
use juice_os_kernel.Prelude.{
  suc, ◌+◌, ◌*◌, ◌≤◌, ◌≡◌, refl, sym, ap, ◌∙◌, inl, inr, false, Option, none, some, List, [], ◌∷◌,
  ◌++◌, map, append-nil, append_assoc, arith, ◌==◌, if◌then◌else◌, Bool-cases, length,
  length-append,
}
use juice_os_kernel.Storage.Defs.{
  BlockDevice, Partition, partition_device, Mbr, MbrPartition, is_empty, analyze_partitioning,
}
use juice_os_kernel.Storage.Partitions.{used_partitions, analyze_partitioning-used}
use juice_os_kernel.Storage.Mounting.{
  DriveInfo, Volume, mount, mount_drive, mount_all, recognised, with_volume, mount-Option,
  mount_childs-recognised,
}

-- A drive as register_device leaves it.
abbrev pub fresh : {S : Type 0} → BlockDevice S → DriveInfo S
fresh device = record { device = device; childs = [] }

-- The partitions of a drive, by its boot record.
abbrev pub partitions_of : {S : Type 0} → BlockDevice S → Mbr → List (Partition S)
partitions_of device mbr =
    if mbr.boot_sig == 0xAA55 then used_partitions device mbr.partitions else []

-- The volumes of a drive: its own file system, or those of its partitions.
abbrev pub drive_volumes :
    {S V : Type 0}
    → Option V
    → (probe : BlockDevice S → Option V) → BlockDevice S
    → Mbr
    → List (Volume S V)
drive_volumes none probe device mbr = recognised probe (partitions_of device mbr)
drive_volumes (some volume) probe device mbr = record { file_system = volume; device = device } ∷ []

abbrev pub all_volumes :
    {S V : Type 0}
    → (probe : BlockDevice S → Option V) → (mbr_of : BlockDevice S → Mbr) → List (BlockDevice S)
    → List (Volume S V)
all_volumes probe mbr_of [] = []
all_volumes probe mbr_of (device ∷ devices) =
    drive_volumes (probe device) probe device (mbr_of device) ++ all_volumes probe mbr_of devices

length-used_partitions :
    {S : Type 0} (device : BlockDevice S) (parts : List MbrPartition)
    → length (used_partitions device parts) ≤ length parts
length-used_partitions device [] = omega arith
length-used_partitions device (part ∷ parts) = elim (Bool-cases (is_empty part)) [
  | inl e ↦ let l = length-used_partitions device parts in rw e (omega arith)
  | inr e ↦ let l = length-used_partitions device parts in rw e (omega arith)
]

length-partitions_of :
    {S : Type 0} (device : BlockDevice S) (mbr : Mbr)
    → length mbr.partitions ≤ 4
    → length (partitions_of device mbr) ≤ 4
length-partitions_of device mbr h = elim (Bool-cases (mbr.boot_sig == 0xAA55)) [
  | inl e ↦ let l = length-used_partitions device mbr.partitions in rw e (omega arith)
  | inr e ↦ rw e (omega arith)
]

length-recognised :
    {S V : Type 0} (probe : BlockDevice S → Option V) (parts : List (Partition S))
    → length (recognised probe parts) ≤ length parts
length-recognised probe [] = omega arith
length-recognised probe (part ∷ parts) =
    let l = length-recognised probe parts in
    elim (probe (partition_device part))
      as (λ o.
        length (with_volume o (partition_device part) (recognised probe parts))
        ≤ suc (length parts)) [ none ↦ omega arith | some volume ↦ omega arith ]

length-drive_volumes :
    {S V : Type 0} (o : Option V) (probe : BlockDevice S → Option V) (device : BlockDevice S)
    (mbr : Mbr)
    → length mbr.partitions ≤ 4
    → length (drive_volumes o probe device mbr) ≤ 4
length-drive_volumes none probe device mbr h =
    omega
      (arith, length-recognised probe (partitions_of device mbr), length-partitions_of device mbr h)
length-drive_volumes (some volume) probe device mbr h = omega arith

partitions_found :
    {S : Type 0} (device : BlockDevice S) (mbr : Mbr)
    → length mbr.partitions ≤ 4
    → analyze_partitioning device mbr [] ≡ some (partitions_of device mbr)
unfolding analyze_partitioning
partitions_found device mbr h = elim (Bool-cases (mbr.boot_sig == 0xAA55)) [
  | inl e ↦
      let same : mbr.boot_sig ≡ 0xAA55 = ground arith in
      analyze_partitioning-used device mbr [] same (omega arith) ∙ ap some (rw e refl)
  | inr e ↦ rw e refl
]

drive_mounted :
    {S V : Type 0} (probe : BlockDevice S → Option V) (mbr_of : BlockDevice S → Mbr)
    (device : BlockDevice S) (volumes : List (Volume S V))
    → length (mbr_of device).partitions ≤ 4
    → length volumes + 4 ≤ 16
    → (o : Option V) → probe device ≡ o
    → mount_drive probe mbr_of (fresh device) volumes
      ≡ some (volumes ++ drive_volumes o probe device (mbr_of device))
unfolding mount_drive
drive_mounted probe mbr_of device volumes p h none e =
    let m : mount probe device volumes ≡ some (false, volumes) =
      mount-Option probe device volumes (omega arith) none e
      ∙ ap (λ (v : List (Volume _ _)). some (false, v)) (append-nil volumes) in
    let room : length volumes + length (partitions_of device (mbr_of device)) ≤ 16 =
      omega (arith, length-partitions_of device (mbr_of device) p) in
    rw (mount_drive, m, partitions_found device (mbr_of device) p)
      (mount_childs-recognised probe (partitions_of device (mbr_of device)) volumes room)
drive_mounted probe mbr_of device volumes p h (some volume) e =
    rw (mount_drive, mount-Option probe device volumes (omega arith) (some volume) e) refl

-- With drives that have no partitions yet, boot records of four entries at most, and four of the
-- sixteen places left for each drive, init mounts without a panic and behind the volumes before,
-- for each drive in order: its own file system, if a probe knows one, and otherwise those of its
-- partitions, if the boot record has the signature, in the order of the entries in use.
pub mount_all-all_volumes :
    {S V : Type 0} (probe : BlockDevice S → Option V) (mbr_of : BlockDevice S → Mbr)
    (devices : List (BlockDevice S)) (volumes : List (Volume S V))
    → ((device : BlockDevice S) → length (mbr_of device).partitions ≤ 4)
    → length volumes + 4 * length devices ≤ 16
    → mount_all probe mbr_of (map fresh devices) volumes
      ≡ some (volumes ++ all_volumes probe mbr_of devices)
unfolding mount_all
mount_all-all_volumes probe mbr_of [] volumes p h = ap some (sym (append-nil volumes))
mount_all-all_volumes probe mbr_of (device ∷ devices) volumes p h =
    let new = drive_volumes (probe device) probe device (mbr_of device) in
    let m =
      drive_mounted probe mbr_of device volumes (p device) (omega arith) (probe device) refl in
    let room : length (volumes ++ new) + 4 * length devices ≤ 16 = omega (
      arith,
      length-append volumes new,
      length-drive_volumes (probe device) probe device (mbr_of device) (p device),
    ) in
    rw (mount_all, m)
      (mount_all-all_volumes probe mbr_of devices (volumes ++ new) p room
        ∙ ap some (append_assoc volumes new (all_volumes probe mbr_of devices)))
