-- ===== src/Iso/Probe.antt =====
-- probe of core/filesystems/iso_9660.cpp.
use juice_os_kernel.Prelude.{
  ℕ, zero, suc, ◌+◌, Bool, true, false, not, ◌&&◌, ◌||◌, List, [], ◌∷◌, ◌++◌, ltb, ◌==◌,
  if◌then◌else◌, drop,
}
use juice_os_kernel.Text.Defs.{mem_compare, spaced_string_to_cstr}
use juice_os_kernel.Iso.FileData.{Device, common_lba_size, read_cd_sector}
use juice_os_kernel.Iso.Layout.{
  VolumeDesc, volume_desc_of, primary_desc_volume, volume_desc_set_terminator, VolumeInfo,
  no_volume_info, set_primary_volume_desc_lba, set_root_dir_entry,
}

-- What probe comes to: null, a driver, or a loop that goes on for ever.
pub data Probed : Type 0 where
  not_found : Probed
  found : VolumeInfo → Probed
  endless : Probed

abbrev pub primary_volume_desc_sector : ℕ
primary_volume_desc_sector = 16

abbrev pub cd001 : List ℕ
cd001 = b'C' ∷ b'D' ∷ b'0' ∷ b'0' ∷ b'1' ∷ []

unfoldable pub is_volume_desc : VolumeDesc → Bool
is_volume_desc desc = mem_compare desc.identifier cd001 5 && (desc.version == 1)

-- What probe keeps of a primary descriptor.
unfoldable pub with_pvd : (sector : ℕ) → VolumeDesc → VolumeInfo → VolumeInfo
with_pvd sector desc info =
    let info =
      set_root_dir_entry desc.root_directory_entry (set_primary_volume_desc_lba sector info) in
    let (volume_id, ptr) = spaced_string_to_cstr 0 32 (desc.volume_id ++ drop 32 info.volume_id) in
    record info {
      space_size = desc.volume_space_size;
      logical_block_size = desc.logical_block_size;
      volume_id = volume_id;
    }

-- Behind the loop.
unfoldable pub probe_result : (reached_terminator : Bool) → VolumeInfo → Probed
probe_result reached_terminator info =
    if not reached_terminator || not info.has_pvd then not_found else found info

-- The loop on so many rounds. A second primary descriptor starts a round again with the same i.
unfoldable pub probe_loop : (rounds : ℕ) → Device → (i : ℕ) → VolumeInfo → Probed
probe_loop zero device i info = if ltb i 100 then endless else probe_result false info
probe_loop (suc rounds) device i info =
    let desc = volume_desc_of (read_cd_sector device (primary_volume_desc_sector + i)) in
    let again = probe_loop rounds device i info in
    let next = probe_loop rounds device (i + 1) info in
    let next_with_pvd =
      probe_loop rounds device (i + 1) (with_pvd (primary_volume_desc_sector + i) desc info) in
    if not (ltb i 100)
    then probe_result false info
    else if not (is_volume_desc desc)
    then not_found
    else if desc.type == volume_desc_set_terminator
    then probe_result true info
    else if not (desc.type == primary_desc_volume)
    then next
    else if info.has_pvd
    then again
    else if not (desc.logical_block_size == common_lba_size)
    then not_found
    else next_with_pvd

-- The loop moves on with each round, unless it never ends; 100 rounds are all it has.
unfoldable pub probe : (rounds : ℕ) → Device → Probed
probe rounds device = probe_loop rounds device 0 no_volume_info
