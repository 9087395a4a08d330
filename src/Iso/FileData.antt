-- ===== src/Iso/FileData.antt =====
-- read_file of core/filesystems/iso_9660.cpp.
use juice_os_kernel.Prelude.{
  ℕ, zero, suc, ◌+◌, ◌-◌, ◌*◌, ◌/◌, ◌%◌, ◌^◌, min, ◌&&◌, Option, none, some, List, [], ◌++◌, ltb,
  if◌then◌else◌, take, drop,
}
use juice_os_kernel.Fat.Layout.{FileState}

-- The device: the bytes that a read of so many sectors of 512 bytes gives.
abbrev pub Device : Type 0
Device = (start count : ℕ) → List ℕ

abbrev pub common_lba_size : ℕ
common_lba_size = 2048

-- A sector of the CD is four of the device's.
unfoldable pub read_cd_sector : Device → (x : ℕ) → List ℕ
read_cd_sector device x = device (x * 4 % 2 ^ 32) 4

-- `state.size - state.position`, which wraps around.
unfoldable pub left_in_file : FileState → ℕ
left_in_file state = (state.size + 2 ^ 32 - state.position) % 2 ^ 32

unfoldable pub copy_portion_size : FileState → (wanted : ℕ) → ℕ
copy_portion_size state wanted =
    let start = state.position % common_lba_size in
    min (min (left_in_file state) (common_lba_size - start)) wanted

-- The loop of read_file on so many rounds, with the bytes copied so far; `none` is a loop that goes on.
unfoldable pub read_file_loop :
    (rounds : ℕ)
    → Device
    → FileState
    → (wanted : ℕ) → (copied : List ℕ) → Option (FileState × List ℕ)
read_file_loop zero device state wanted copied =
    if ltb 0 wanted && ltb 0 (left_in_file state) then none else some (state, copied)
read_file_loop (suc rounds) device state wanted copied =
    let bytes = read_cd_sector device (state.inode + state.position / common_lba_size) in
    let n = copy_portion_size state wanted in
    let rest =
      read_file_loop rounds device (record state { position = state.position + n }) (wanted - n)
        (copied ++ take n (drop (state.position % common_lba_size) bytes)) in
    if ltb 0 wanted && ltb 0 (left_in_file state) then rest else some (state, copied)

-- The state that is left, and the bytes at the front of the buffer. Each round copies a byte at
-- least, so that a round for each byte that is wanted is enough.
unfoldable pub read_file : Device → FileState → (wanted : ℕ) → Option (FileState × List ℕ)
read_file device state wanted = read_file_loop wanted device state wanted []
