-- ===== src/Fat/Reads.antt =====
-- What read_file of core/filesystems/fat.cpp leaves in the buffer.
use juice_os_kernel.Prelude.{
  ℕ, suc, ◌+◌, ◌-◌, ◌/◌, ◌%◌, ◌^◌, ◌≤◌, ◌<◌, ◌≡◌, sym, ap, ◌∙◌, ◌≢◌, true, false, ◌&&◌, some, List,
  [], append-nil, arith, ltb, length, take, drop, over, length-over, length-take_le, take-length,
  over_twice,
}
use native.Mathlib.Nat.{mod-eq_of_lt, mod_self, mul-le-mul}
use juice_os_kernel.Fat.Layout.{FileState}
use juice_os_kernel.Fat.Clusters.{Fat, next_cluster, reader_at, cluster_bytes}
use juice_os_kernel.Fat.FileData.{copy_portion, read_file_loop, read_file}
use juice_os_kernel.Fat.Files.{finished}
use juice_os_kernel.Fat.Rounds.{
  cluster_size, reading, read_round-over, behind_round, loop_round, stops, goes_on,
  first_cluster_skips,
}

-- A read of bytes of the file that lie in its first cluster copies exactly them to the front of
-- the buffer and moves the position behind them.
pub read_file-over :
    (fuel next : ℕ) (driver : Fat) (state : FileState) (buffer : List ℕ) (wanted : ℕ)
    → 0 < driver.volume_info.bytes_per_sector
    → 0 < driver.volume_info.sectors_per_cluster
    → cluster_size driver < 2 ^ 31
    → state.inode ≢ 0
    → next_cluster driver state.inode ≡ some next
    → length (cluster_bytes driver state.inode) ≡ cluster_size driver
    → state.position < cluster_size driver
    → state.position + wanted ≤ cluster_size driver
    → state.position + wanted ≤ state.size
    → state.size < 2 ^ 32
    → wanted ≤ length buffer
    → read_file (suc fuel) driver state buffer wanted
      ≡ finished (
        record state { position = state.position + wanted },
        over (take wanted (drop state.position (cluster_bytes driver state.inode))) buffer,
      )
unfolding read_file
read_file-over fuel next driver state buffer wanted bps spc wide n f size first inside file small
      fits =
    let skips =
      first_cluster_skips state.position driver.volume_info.bytes_per_sector
        driver.volume_info.sectors_per_cluster bps spc first in
    let here : state.inode
          + state.position / driver.volume_info.bytes_per_sector
            / driver.volume_info.sectors_per_cluster
        ≡ state.inode =
      omega arith in
    let offset = mod-eq_of_lt first in
    let nothing_left : wanted - wanted ≡ 0 = omega arith in
    let done : (ltb next driver.volume_info.chain_end_cluster && ltb 0 (wanted - wanted)) ≡ false =
      rw nothing_left (ground arith) in
    ap (λ (c : ℕ). read_file_loop (suc fuel) driver (reader_at c) state buffer wanted) here
    ∙ loop_round fuel driver (reader_at state.inode) next state buffer wanted n f
    ∙ ap (behind_round fuel driver (reading next driver state.inode)) (
        read_round-over (reading next driver state.inode) state buffer wanted wanted state.position
          (portion_all offset) offset (omega arith) (omega arith) fits)
    ∙ stops fuel driver (reading next driver state.inode) _ _ (wanted - wanted) done
  where
    portion_all :
        state.position % cluster_size driver ≡ state.position
        → copy_portion (cluster_size driver) state wanted ≡ wanted
    portion_all o = unfold copy_portion in rw o (omega arith)

whole_cluster :
    (cs : ℕ) (state : FileState) (wanted : ℕ)
    → state.position % cs ≡ 0
    → state.position + cs ≤ state.size
    → state.size < 2 ^ 32
    → cs ≤ wanted
    → copy_portion cs state wanted ≡ cs
unfolding copy_portion
whole_cluster cs state wanted e h small l = rw e (omega arith)

-- A second cluster over the first.
overwritten :
    (cs : ℕ) (first second buffer : List ℕ)
    → length first ≡ cs
    → length second ≡ cs
    → over (take cs (drop 0 second)) (over (take cs (drop 0 first)) buffer) ≡ over second buffer
overwritten cs first second buffer e f =
    let all1 : take cs first ≡ first = ap (λ (k : ℕ). take k first) (sym e) ∙ take-length first in
    let all2 : take cs second ≡ second =
      ap (λ (k : ℕ). take k second) (sym f) ∙ take-length second in
    ap (λ (w : List ℕ). over w (over (take cs first) buffer)) all2
    ∙ ap (λ (w : List ℕ). over second (over w buffer)) (all1 ∙ sym (append-nil first))
    ∙ over_twice second first [] buffer (omega arith)
    ∙ ap (λ (w : List ℕ). over w buffer) (append-nil second)

-- A read of the whole of a file of two clusters, from its start, leaves in the buffer only what
-- the second cluster holds, where the first was to stand, and nothing behind it.
pub read_file_overwrites :
    (fuel next last : ℕ) (driver : Fat) (state : FileState) (buffer : List ℕ)
    → 0 < driver.volume_info.bytes_per_sector
    → 0 < driver.volume_info.sectors_per_cluster
    → cluster_size driver < 2 ^ 31
    → state.inode ≢ 0
    → next ≢ 0
    → next_cluster driver state.inode ≡ some next
    → next < driver.volume_info.chain_end_cluster
    → next_cluster driver next ≡ some last
    → length (cluster_bytes driver state.inode) ≡ cluster_size driver
    → length (cluster_bytes driver next) ≡ cluster_size driver
    → state.position ≡ 0
    → state.size ≡ cluster_size driver + cluster_size driver
    → state.size ≤ length buffer
    → read_file (suc (suc fuel)) driver state buffer state.size
      ≡ finished (record state { position = state.size }, over (cluster_bytes driver next) buffer)
unfolding read_file
read_file_overwrites fuel next last driver state buffer bps spc wide n m f inside g size1 size2
      start size fits =
    let cs = cluster_size driver in
    let product =
      mul-le-mul {n₁ = 1} {m₁ = 1} {n₂ = driver.volume_info.sectors_per_cluster}
        {m₂ = driver.volume_info.bytes_per_sector} spc bps in
    let pos : 0 < cs = omega arith in
    let skips =
      first_cluster_skips state.position driver.volume_info.bytes_per_sector
        driver.volume_info.sectors_per_cluster bps spc (omega arith) in
    let here : state.inode
          + state.position / driver.volume_info.bytes_per_sector
            / driver.volume_info.sectors_per_cluster
        ≡ state.inode =
      omega arith in
    let offset1 : state.position % cs ≡ 0 = ap (λ (p : ℕ). p % cs) start ∙ mod-eq_of_lt pos in
    let offset2 : (state.position + cs) % cs ≡ 0 =
      ap (λ (p : ℕ). p % cs) (omega arith) ∙ mod_self cs in
    let r1 = reading next driver state.inode in
    let r2 = reading last driver next in
    let state1 : FileState = record state { position = state.position + cs } in
    let buffer1 = over (take cs (drop 0 (cluster_bytes driver state.inode))) buffer in
    let taken = length-take_le cs (cluster_bytes driver state.inode) (omega arith) in
    let wanted1 = state.size - cs in
    let more : (ltb next driver.volume_info.chain_end_cluster && ltb 0 wanted1) ≡ true =
      ground arith in
    let nothing_left : wanted1 - cs ≡ 0 = omega arith in
    let done : (ltb last driver.volume_info.chain_end_cluster && ltb 0 (wanted1 - cs)) ≡ false =
      rw nothing_left (ground arith) in
    let ends : state.position + cs + cs ≡ state.size = omega arith in
    ap (λ (c : ℕ). read_file_loop (suc (suc fuel)) driver (reader_at c) state buffer state.size)
      here
    ∙ loop_round (suc fuel) driver (reader_at state.inode) next state buffer state.size n f
    ∙ ap (behind_round (suc fuel) driver r1) (
        read_round-over r1 state buffer state.size cs 0
          (whole_cluster cs state state.size offset1 (omega arith) (omega arith) (omega arith))
          offset1 (omega arith) (omega arith) (omega arith))
    ∙ goes_on (suc fuel) driver r1 state1 buffer1 wanted1 more
    ∙ loop_round fuel driver r1 last state1 buffer1 wanted1 m g
    ∙ ap (behind_round fuel driver r2) (
        read_round-over r2 state1 buffer1 wanted1 cs 0
          (whole_cluster cs state1 wanted1 offset2 (omega arith) (omega arith) (omega arith))
          offset2 (omega arith) (omega arith)
          (omega (arith, length-over (take cs (drop 0 (cluster_bytes driver state.inode))) buffer)))
    ∙ stops fuel driver r2 _ _ (wanted1 - cs) done
    ∙ ap
        (λ (p : ℕ). finished (
          record state { position = p },
          over (take cs (drop 0 (cluster_bytes driver next))) buffer1,
        ))
        ends
    ∙ ap (λ (b : List ℕ). finished (record state { position = state.size }, b))
        (overwritten cs (cluster_bytes driver state.inode) (cluster_bytes driver next) buffer size1
          size2)
