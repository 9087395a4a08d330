-- ===== src/Fat/FileData.antt =====
-- How read_file of core/filesystems/fat.cpp copies a file, cluster by cluster.
use juice_os_kernel.Prelude.{
  ℕ, zero, suc, ◌+◌, ◌-◌, ◌/◌, ◌%◌, ◌^◌, min, true, false, ◌&&◌, List, ltb, take, drop,
}
use juice_os_kernel.Syslog.Defs.{mem_copy}
use juice_os_kernel.Fat.Layout.{FileState}
use juice_os_kernel.Fat.Clusters.{Fat, ClusterReader, reader_at, read_next}
use juice_os_kernel.Fat.Files.{Walk, finished, out_of_fuel, after_read}

-- The bytes of a cluster that are copied: those of the file from its position on, as many as the
-- cluster and the file have, and as are wanted. The difference of the size wraps around.
unfoldable pub copy_portion : (read_bytes : ℕ) → FileState → (wanted : ℕ) → ℕ
copy_portion read_bytes state wanted =
    min
      (min (read_bytes - state.position % read_bytes)
        ((state.size + 2 ^ 32 - state.position) % 2 ^ 32))
      wanted

-- The loop of read_file. Every portion goes to the front of the buffer.
unfoldable pub read_round :
    ClusterReader → FileState → (buffer : List ℕ) → (wanted : ℕ) → FileState × List ℕ × ℕ
read_round r state buffer wanted =
    let portion = copy_portion r.read_bytes state wanted in
    (
      record state { position = (state.position + portion) % 2 ^ 32 },
      mem_copy (take portion (drop (state.position % r.read_bytes) r.buffer)) 0 buffer,
      wanted - portion,
    )

unfoldable pub read_file_loop :
    (fuel : ℕ)
    → Fat
    → ClusterReader
    → FileState
    → (buffer : List ℕ) → (wanted : ℕ) → Walk (FileState × List ℕ)
read_file_loop zero driver reader state buffer wanted = out_of_fuel
read_file_loop (suc fuel) driver reader state buffer wanted =
    after_read (read_next driver reader) (λ r.
      let (state', buffer', wanted') = read_round r state buffer wanted in
      elim (r.has_more_data && ltb 0 wanted') as (λ x. Walk (FileState × List ℕ)) [
        | true ↦ read_file_loop fuel driver r state' buffer' wanted'
        | false ↦ finished (state', buffer')
      ])

-- The file's state and the buffer behind a read. The first cluster is computed, and not followed
-- along the table.
unfoldable pub read_file :
    (fuel : ℕ) → Fat → FileState → (buffer : List ℕ) → (wanted : ℕ) → Walk (FileState × List ℕ)
read_file fuel driver state buffer wanted =
    let skipped =
      state.position / driver.volume_info.bytes_per_sector
      / driver.volume_info.sectors_per_cluster in
    read_file_loop fuel driver (reader_at (state.inode + skipped)) state buffer wanted
