-- ===== src/Storage/Mounting.antt =====
-- The registries of drives and volumes of core/drivers/storage.cpp. The probes are parameters.
use juice_os_kernel.Prelude.{
  ◌+◌, ◌≤◌, ◌<◌, ◌≡◌, refl, sym, ap, ◌∙◌, Bool, true, false, Option, none, some, List, [], ◌∷◌,
  ◌++◌, append-nil, append_assoc, arith, leb, if◌then◌else◌, length, length-append,
}
use juice_os_kernel.Storage.Defs.{
  BlockDevice, Partition, partition_device, Mbr, max_devices, analyze_partitioning,
}

pub record DriveInfo (S : Type 0) : Type 0 where
  pub device : BlockDevice S
  pub childs : List (Partition S)

-- A volume that was mounted, with the device that its `init` was given.
pub record Volume (S : Type 0) (V : Type 0) : Type 0 where
  pub file_system : V
  pub device : BlockDevice S

-- `none` is the panic.
unfoldable pub register_device :
    {S : Type 0} → List (DriveInfo S) → BlockDevice S → Option (List (DriveInfo S))
register_device drives dev =
    if leb max_devices (length drives)
    then none
    else some (drives ++ (record { device = dev; childs = [] } ∷ []))

-- The probes of the two file systems are asked in this order; `none` is a device with neither.
unfoldable pub probe_device :
    {S V : Type 0} → (cd_probe fat_probe : BlockDevice S → Option V) → BlockDevice S → Option V
probe_device cd_probe fat_probe device = elim (cd_probe device) [
  | none ↦ fat_probe device
  | some selected ↦ some selected
]

-- Whether the device was mounted, and the volumes; `none` is the panic.
unfoldable pub mount :
    {S V : Type 0}
    → (probe : BlockDevice S → Option V) → BlockDevice S
    → List (Volume S V)
    → Option (Bool × List (Volume S V))
mount {S} {V} probe device volumes =
    let probed : Option (Bool × List (Volume S V)) = elim (probe device) [
      | none ↦ some (false, volumes)
      | some volume ↦
          some (true, volumes ++ (record { file_system = volume; device = device } ∷ []))
    ] in
    if leb max_devices (length volumes) then none else probed

unfoldable pub mount_childs :
    {S V : Type 0}
    → (probe : BlockDevice S → Option V) → List (Partition S)
    → List (Volume S V)
    → Option (List (Volume S V))
mount_childs probe [] volumes = some volumes
mount_childs probe (part ∷ parts) volumes = elim (mount probe (partition_device part) volumes) [
  | none ↦ none
  | some (_, volumes') ↦ mount_childs probe parts volumes'
]

-- A drive with a file system of its own is not asked for partitions. The boot record is what the
-- drive's first sector holds.
unfoldable pub mount_drive :
    {S V : Type 0}
    → (probe : BlockDevice S → Option V) → (mbr_of : BlockDevice S → Mbr) → DriveInfo S
    → List (Volume S V)
    → Option (List (Volume S V))
mount_drive probe mbr_of drive volumes = elim (mount probe drive.device volumes) [
  | none ↦ none
  | some (is_mounted, volumes') ↦ elim is_mounted [
    | true ↦ some volumes'
    | false ↦ elim (analyze_partitioning drive.device (mbr_of drive.device) drive.childs) [
      | none ↦ none
      | some childs ↦ mount_childs probe childs volumes'
    ]
  ]
]

unfoldable pub mount_all :
    {S V : Type 0}
    → (probe : BlockDevice S → Option V) → (mbr_of : BlockDevice S → Mbr) → List (DriveInfo S)
    → List (Volume S V)
    → Option (List (Volume S V))
mount_all probe mbr_of [] volumes = some volumes
mount_all probe mbr_of (drive ∷ drives) volumes = elim (mount_drive probe mbr_of drive volumes) [
  | none ↦ none
  | some volumes' ↦ mount_all probe mbr_of drives volumes'
]

-- The volumes that a list of partitions gives.
abbrev pub with_volume :
    {S V : Type 0} → Option V → BlockDevice S → List (Volume S V) → List (Volume S V)
with_volume none device volumes = volumes
with_volume (some volume) device volumes =
    record { file_system = volume; device = device } ∷ volumes

abbrev pub recognised :
    {S V : Type 0} → (probe : BlockDevice S → Option V) → List (Partition S) → List (Volume S V)
recognised probe [] = []
recognised probe (part ∷ parts) =
    with_volume (probe (partition_device part)) (partition_device part) (recognised probe parts)

abbrev pub is_found : {V : Type 0} → Option V → Bool
is_found none = false
is_found (some volume) = true

pub mount-Option :
    {S V : Type 0} (probe : BlockDevice S → Option V) (device : BlockDevice S)
    (volumes : List (Volume S V))
    → length volumes < 16
    → (o : Option V) → probe device ≡ o
    → mount probe device volumes ≡ some (is_found o, volumes ++ with_volume o device [])
unfolding mount
mount-Option probe device volumes h none e =
    let room : leb 16 (length volumes) ≡ false = ground arith in
    rw (mount, e, room, append-nil volumes) refl
mount-Option probe device volumes h (some volume) e =
    let room : leb 16 (length volumes) ≡ false = ground arith in rw (mount, e, room) refl

-- With a place left for each, every partition with a file system is mounted, in order.
pub mount_childs-recognised :
    {S V : Type 0} (probe : BlockDevice S → Option V) (parts : List (Partition S))
    (volumes : List (Volume S V))
    → length volumes + length parts ≤ 16
    → mount_childs probe parts volumes ≡ some (volumes ++ recognised probe parts)
unfolding mount_childs
mount_childs-recognised probe [] volumes h = ap some (sym (append-nil volumes))
mount_childs-recognised probe (part ∷ parts) volumes h =
    let e =
      mount-Option probe (partition_device part) volumes (omega arith)
        (probe (partition_device part)) refl in
    rw (mount_childs, e)
      (elim (probe (partition_device part))
        as (λ o.
          mount_childs probe parts (volumes ++ with_volume o (partition_device part) [])
          ≡ some (volumes ++ with_volume o (partition_device part) (recognised probe parts))) [
            | none ↦
                mount_childs-recognised probe parts (volumes ++ [])
                  (omega (arith, length-append volumes []))
                ∙ ap some (append_assoc volumes [] (recognised probe parts))
            | some volume ↦
                let new = record { file_system = volume; device = partition_device part } ∷ [] in
                mount_childs-recognised probe parts (volumes ++ new)
                  (omega (arith, length-append volumes new))
                ∙ ap some (append_assoc volumes new (recognised probe parts))
          ])
